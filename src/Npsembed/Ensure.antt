-- ===== src/Npsembed/Ensure.antt =====
-- internal/npsembed/npsembed.go: the client that is made for a device.
use sulink_lan.Base.{
  ◌≡◌, true, List, [], ◌∷◌, ◌++◌, none, Result, ok, err, Str, false, arith, Bool-cases, inl, inr,
  refl,
}
use sulink_lan.Base.Eq.{==ₛ_iff}
use sulink_lan.Npsembed.{NpsClient, Nps, has_key, ensure_client_by_vkey}

has_key-append :
    (vkey : Str) (cs : List NpsClient) (c : NpsClient)
    → c.verify_key ≡ vkey
    → has_key vkey (cs ++ c ∷ []) ≡ true
unfolding has_key
has_key-append vkey [] c e = ground (arith, ==ₛ_iff c.verify_key vkey)
has_key-append vkey (d ∷ cs) c e = ground (arith, has_key-append vkey cs c e)

-- A new client of NPS goes into its list, with the key that it was given.
abbrev pub Lists : {S : Type 0} → Nps S → Str → Str → S → Type 0
Lists n vkey remark s =
    (c : NpsClient)
    → (n.new_client vkey remark s).0 ≡ ok c
    → (n.clients (n.new_client vkey remark s).1 ≡ n.clients s ++ c ∷ []) × (c.verify_key ≡ vkey)

ensured :
    {S : Type 0} (n : Nps S) (vkey remark : Str) (s : S)
    → Lists n vkey remark s
    → (ensure_client_by_vkey n true vkey remark s).0 ≡ none
    → has_key vkey (n.clients (ensure_client_by_vkey n true vkey remark s).1) ≡ true
unfolding ensure_client_by_vkey
ensured n vkey remark s law fine = elim (Bool-cases (has_key vkey (n.clients s))) [
  | inl old ↦ ground arith
  | inr new ↦ made new (n.new_client vkey remark s).0 refl
]
  where
    made :
        has_key vkey (n.clients s) ≡ false
        → (r : Result Str NpsClient) → (n.new_client vkey remark s).0 ≡ r
        → has_key vkey (n.clients (ensure_client_by_vkey n true vkey remark s).1) ≡ true
    made new (ok c) e = ground (arith, e, law c e, has_key-append vkey (n.clients s) c)
    made new (err x) e = absurd (ground (arith, e))

-- Once `EnsureClientByVkey` has succeeded NPS has a client with the key, and another call changes
-- nothing. `Lists` says what NPS does with a new client.
pub ensure_client_twice :
    {S : Type 0} (n : Nps S) (vkey remark again : Str) (s : S)
    → Lists n vkey remark s
    → (ensure_client_by_vkey n true vkey remark s).0 ≡ none
    → let t = (ensure_client_by_vkey n true vkey remark s).1 in
      (has_key vkey (n.clients t) ≡ true) × (ensure_client_by_vkey n true vkey again t ≡ (none, t))
ensure_client_twice n vkey remark again s law fine =
    let t = (ensure_client_by_vkey n true vkey remark s).1 in
    let there = ensured n vkey remark s law fine in
    (there, unfold ensure_client_by_vkey in ground (arith, there))
