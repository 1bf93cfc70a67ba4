-- ===== src/Protocol/Framing.antt =====
-- internal/protocol/msg.go: `WriteMsg` and `ReadMsg` on a connection, whose bytes are a list.
-- encoding/json is an argument.
use sulink_lan.Base.{
  ℕ, zero, suc, ◌%◌, ◌^◌, ◌≤◌, ◌<◌, ◌≡◌, ◌∙◌, refl, ap, List, [], ◌∷◌, ◌++◌, Option, none, some,
  Result, ok, err, ltb, if◌then◌else◌, length, take, drop, length-append, All, arith,
}
use sulink_lan.Base.Bytes.{Bytes, be32, uint32_at, uint32_at-be32, take-append, drop-append}
use sulink_lan.Protocol.{Message}

append_assoc : (a b c : Bytes) → (a ++ b) ++ c ≡ a ++ (b ++ c)
append_assoc [] b c = refl
append_assoc (x ∷ a) b c = ap (◌∷◌ x) (append_assoc a b c)

-- `json.Marshal` and `json.Unmarshal` of a message.
pub record Json : Type 0 where
  pub marshal : Message → Bytes
  pub unmarshal : Bytes → Option Message

pub data ReadError : Type 0 where
  no_header no_body malformed : ReadError
  too_large : ℕ → ReadError

abbrev pub max_message : ℕ
max_message = 2 ^ 20

module _ (j : Json) where
  -- What encoding/json does with a message of valid text: it reads back what it wrote.
  abbrev pub IsCarried : Message → Type 0
  IsCarried m = j.unmarshal (j.marshal m) ≡ some m

  -- The bytes that `WriteMsg` writes.
  unfoldable pub frame : Message → Bytes
  frame m = be32 (length (j.marshal m) % 2 ^ 32) ++ j.marshal m

  -- `ReadMsg`: the message, and the bytes that stay on the connection.
  unfoldable pub read_msg : Bytes → Result ReadError (Message × Bytes)
  read_msg s =
      let n = uint32_at s 0 in
      let rest = drop 4 s in
      if ltb (length s) 4
      then err no_header
      else if ltb max_message n
      then err (too_large n)
      else if ltb (length rest) n
      then err no_body
      else elim (j.unmarshal (take n rest)) [ none ↦ err malformed | some m ↦ ok (m, drop n rest) ]

  -- A message of at most 1 MB that encoding/json carries is read back, and what follows it on the
  -- connection is left.
  pub read_msg-frame :
      (m : Message) (rest : Bytes)
      → IsCarried m
      → length (j.marshal m) ≤ max_message
      → read_msg (frame m ++ rest) ≡ ok (m, rest)
  unfolding read_msg frame
  read_msg-frame m rest carried fits =
      let body = j.marshal m in
      grind (
        arith,
        take-append body rest (length body) refl,
        drop-append body rest (length body) refl,
        length-append body rest,
        carried,
        uint32_at-be32 (length body) [] (omega arith),
      )

  -- A message of more than 1 MB is written, but the reader refuses it.
  pub read_msg-frame_large :
      (m : Message) (rest : Bytes)
      → max_message < length (j.marshal m)
      → length (j.marshal m) < 2 ^ 32
      → read_msg (frame m ++ rest) ≡ err (too_large (length (j.marshal m)))
  unfolding read_msg frame
  read_msg-frame_large m rest large fits =
      grind (arith, uint32_at-be32 (length (j.marshal m)) [] fits)

  unfoldable pub frames : List Message → Bytes
  unfolding frame
  frames [] = []
  frames (m ∷ ms) = frame m ++ frames ms

  -- The first messages on a connection, as many as `count`.
  unfoldable pub cons_msg :
      Message → Result ReadError (List Message × Bytes) → Result ReadError (List Message × Bytes)
  cons_msg m (err e) = err e
  cons_msg m (ok (ms, t)) = ok (m ∷ ms, t)

  unfoldable pub read_msgs : ℕ → Bytes → Result ReadError (List Message × Bytes)
  unfolding read_msg cons_msg
  read_msgs zero s = ok ([], s)
  read_msgs (suc count) s = elim (read_msg s) [
    | err e ↦ err e
    | ok (m, rest) ↦ cons_msg m (read_msgs count rest)
  ]

  -- Messages of at most 1 MB that encoding/json carries, and that are written one after the other,
  -- are read back in order.
  pub read_msgs-frames :
      (ms : List Message) (rest : Bytes)
      → All (λ (m : Message). IsCarried m × (length (j.marshal m) ≤ max_message)) ms
      → read_msgs (length ms) (frames ms ++ rest) ≡ ok (ms, rest)
  unfolding read_msgs frames
  read_msgs-frames [] rest fits = refl
  read_msgs-frames (m ∷ ms) rest fits =
      let more : Bytes = frames ms ++ rest in
      let rejoin : frames (m ∷ ms) ++ rest ≡ frame m ++ more =
        append_assoc (frame m) (frames ms) rest in
      ap
        (λ s. elim (read_msg s) [
          | err e ↦ err e
          | ok (n, t) ↦ cons_msg n (read_msgs (length ms) t)
        ])
        rejoin
      ∙ ap (λ r. elim r [ err e ↦ err e | ok (n, t) ↦ cons_msg n (read_msgs (length ms) t) ])
          (read_msg-frame m more fits.0.0 fits.0.1)
      ∙ ap (cons_msg m) (read_msgs-frames ms rest fits.1)
