-- ===== src/Server/Icmp/Writes.antt =====
-- What `copy` into a part of a text, as internal/server/icmp.go does it, leaves of the text.
use sulink_lan.Base.{
  ℕ, zero, suc, ◌+◌, ◌-◌, ◌*◌, ◌/◌, ◌%◌, ◌≤◌, ◌<◌, ◌≡◌, ◌∙◌, refl, ap, sym, [], ◌∷◌, ◌++◌, length,
  take, drop, length-append, length-take, length-drop, All-append, arith,
}
use sulink_lan.Base.Bytes.{Bytes, AreBytes, slice, be16, drop-append, take-append}
use sulink_lan.Server.Icmp.{put, checksum}
use sulink_lan.Server.Icmp.Checksum.{checksum_closes}

pub All-take : (n : ℕ) (s : Bytes) → AreBytes s → AreBytes (take n s)
All-take zero s bs = tt
All-take (suc n) [] bs = tt
All-take (suc n) (b ∷ s) bs = (bs.0, All-take n s bs.1)

pub All-drop : (n : ℕ) (s : Bytes) → AreBytes s → AreBytes (drop n s)
All-drop zero s bs = bs
All-drop (suc n) [] bs = tt
All-drop (suc n) (b ∷ s) bs = All-drop n s bs.1

pub drop_nil : (n : ℕ) → drop {A = ℕ} n [] ≡ []
drop_nil zero = refl
drop_nil (suc n) = refl

pub drop-drop : (m n k : ℕ) (s : Bytes) → k ≡ n + m → drop m (drop n s) ≡ drop k s
drop-drop m zero k s e = ap (λ x. drop x s) (omega (arith, e))
drop-drop m (suc n) k [] e = drop_nil m ∙ sym (drop_nil k)
drop-drop m (suc n) zero (b ∷ s) e = absurd (omega arith)
drop-drop m (suc n) (suc k) (b ∷ s) e = drop-drop m n k s (omega arith)

pub drop_past : (xs ys : Bytes) (n k : ℕ) → n ≡ length xs + k → drop n (xs ++ ys) ≡ drop k ys
drop_past [] ys n k e = ap (λ x. drop x ys) (omega (arith, e))
drop_past (x ∷ xs) ys zero k e = absurd (omega arith)
drop_past (x ∷ xs) ys (suc n) k e = drop_past xs ys n k (omega arith)

pub take_past : (xs ys : Bytes) (n k : ℕ) → n ≡ length xs + k → take n (xs ++ ys) ≡ xs ++ take k ys
take_past [] ys n k e = ap (λ x. take x ys) (omega (arith, e))
take_past (x ∷ xs) ys zero k e = absurd (omega arith)
take_past (x ∷ xs) ys (suc n) k e = ap (◌∷◌ x) (take_past xs ys n k (omega arith))

pub take_in : (xs ys : Bytes) (n : ℕ) → n ≤ length xs → take n (xs ++ ys) ≡ take n xs
take_in xs ys zero le = refl
take_in [] ys (suc n) le = absurd (omega arith)
take_in (x ∷ xs) ys (suc n) le = ap (◌∷◌ x) (take_in xs ys n (omega arith))

pub length_start : (i : ℕ) (s : Bytes) → i ≤ length s → length (take i s) ≡ i
length_start i s le = omega (arith, length-take i s)

-- The bytes of a written text before, at and after the place of the write.
pub length-put : (i : ℕ) (w s : Bytes) → i + length w ≤ length s → length (put i w s) ≡ length s
unfolding put
length-put i w s le = omega (
  arith,
  length-append (take i s) (w ++ drop (i + length w) s),
  length-append w (drop (i + length w) s),
  length-take i s,
  length-drop (i + length w) s,
)

pub AreBytes-put : (i : ℕ) (w s : Bytes) → AreBytes w → AreBytes s → AreBytes (put i w s)
unfolding put
AreBytes-put i w s bw bs =
    All-append (λ b. b < 256) (take i s) (w ++ drop (i + length w) s) (All-take i s bs)
      (All-append (λ b. b < 256) w (drop (i + length w) s) bw (All-drop (i + length w) s bs))

pub take-put :
    (i j : ℕ) (w s : Bytes) → j ≤ i → i ≤ length s → take j (put i w s) ≡ take j (take i s)
unfolding put
take-put i j w s le fits = take_in (take i s) _ j (omega (arith, length-take i s))

pub drop-put :
    (i n : ℕ) (w s : Bytes) → i ≤ length s → i + length w ≤ n → drop n (put i w s) ≡ drop n s
unfolding put
drop-put i n w s fits past =
    drop_past (take i s) (w ++ drop (i + length w) s) n (n - i) (omega (arith, length-take i s))
    ∙ drop_past w (drop (i + length w) s) (n - i) (n - i - length w) (omega arith)
    ∙ drop-drop (n - i - length w) (i + length w) n s (omega arith)

pub put_parts : (i : ℕ) (w s : Bytes) → put i w s ≡ take i s ++ (w ++ drop (i + length w) s)
unfolding put
put_parts i w s = refl

pub take_at-put : (i : ℕ) (w s : Bytes) → i ≤ length s → take i (put i w s) ≡ take i s
unfolding put
take_at-put i w s fits =
    take-append (take i s) (w ++ drop (i + length w) s) i (length_start i s fits)

-- Of two writes of a word at one place the second one stays.
pub put-put :
    (i : ℕ) (a b c d : ℕ) (s : Bytes)
    → i + 2 ≤ length s
    → put i (a ∷ b ∷ []) (put i (c ∷ d ∷ []) s) ≡ take i s ++ (a ∷ b ∷ drop (i + 2) s)
put-put i a b c d s fits =
    let two = c ∷ d ∷ [] in
    put_parts i (a ∷ b ∷ []) (put i two s)
    ∙ ap (λ x. x ++ (a ∷ b ∷ drop (i + 2) (put i two s))) (take_at-put i two s (omega arith))
    ∙ ap (λ x. take i s ++ (a ∷ b ∷ x)) (drop-put i (i + 2) two s (omega arith) (omega arith))

-- A text with a zero word at `i`, that is then filled with the checksum of the text, has the
-- checksum 0.
pub filled :
    (i k : ℕ) (s : Bytes)
    → i ≡ 2 * k
    → i + 2 ≤ length s
    → length s ≤ 65535
    → AreBytes s
    → checksum (put i (be16 (checksum (put i (0 ∷ 0 ∷ []) s))) (put i (0 ∷ 0 ∷ []) s)) ≡ 0
unfolding put
filled i k s e fits small bs =
    let t = drop (i + 2) s in
    let closes =
      checksum_closes k (take i s) t (omega (arith, length-take i s)) (All-take i s bs)
        (All-drop (i + 2) s bs) (omega (arith, length-take i s, length-drop (i + 2) s)) in
    let word = put i (0 ∷ 0 ∷ []) s in
    ap (λ x. checksum x) (put-put i (checksum word / 256 % 256) (checksum word % 256) 0 0 s fits)
    ∙ closes

pub take-take : (m n : ℕ) (s : Bytes) → m ≤ n → take m (take n s) ≡ take m s
take-take zero n s le = refl
take-take (suc m) zero s le = absurd (omega arith)
take-take (suc m) (suc n) [] le = refl
take-take (suc m) (suc n) (b ∷ s) le = ap (◌∷◌ b) (take-take m n s (omega arith))

pub take_nil : (n : ℕ) → take {A = ℕ} n [] ≡ []
take_nil zero = refl
take_nil (suc n) = refl

pub drop-take : (m n k : ℕ) (s : Bytes) → n ≡ m + k → drop m (take n s) ≡ take k (drop m s)
drop-take zero n k s e = ap (λ x. take x s) (omega (arith, e))
drop-take (suc m) zero k s e = absurd (omega arith)
drop-take (suc m) (suc n) k [] e = sym (take_nil k)
drop-take (suc m) (suc n) k (b ∷ s) e = drop-take m n k s (omega arith)

pub drop_in : (xs ys : Bytes) (n : ℕ) → n ≤ length xs → drop n (xs ++ ys) ≡ drop n xs ++ ys
drop_in xs ys zero le = refl
drop_in [] ys (suc n) le = absurd (omega arith)
drop_in (x ∷ xs) ys (suc n) le = drop_in xs ys n (omega arith)

-- A write, and then a part that begins or ends away from it.
pub take_after-put :
    (i n : ℕ) (w s : Bytes)
    → i + length w ≤ n
    → n ≤ length s
    → take n (put i w s) ≡ put i w (take n s)
take_after-put i n w s past fits =
    let rest = drop (i + length w) s in
    ap (take n) (put_parts i w s)
    ∙ take_past (take i s) (w ++ rest) n (n - i) (omega (arith, length-take i s))
    ∙ ap (λ x. take i s ++ x) (take_past w rest (n - i) (n - i - length w) (omega arith))
    ∙ ap (λ x. take i s ++ (w ++ x))
        (sym (drop-take (i + length w) n (n - i - length w) s (omega arith)))
    ∙ ap (λ x. x ++ (w ++ drop (i + length w) (take n s))) (sym (take-take i n s (omega arith)))
    ∙ sym (put_parts i w (take n s))

pub drop_before-put :
    (i j k : ℕ) (w s : Bytes) → i ≡ j + k → i ≤ length s → drop j (put i w s) ≡ put k w (drop j s)
drop_before-put i j k w s e fits =
    let rest = drop (i + length w) s in
    ap (drop j) (put_parts i w s)
    ∙ drop_in (take i s) (w ++ rest) j (omega (arith, length-take i s))
    ∙ ap (λ x. x ++ (w ++ rest)) (drop-take j i k s e)
    ∙ ap (λ x. take k (drop j s) ++ (w ++ x))
        (sym (drop-drop (k + length w) j (i + length w) s (omega arith)))
    ∙ sym (put_parts k w (drop j s))

pub slice_below-put :
    (a b i k : ℕ) (w s : Bytes)
    → i ≡ a + k
    → b ≤ i
    → i ≤ length s
    → slice a b (put i w s) ≡ slice a b s
slice_below-put a b i k w s e le fits =
    ap (take (b - a)) (drop_before-put i a k w s e fits)
    ∙ take-put k (b - a) w (drop a s) (omega arith) (omega (arith, length-drop a s))
    ∙ take-take (b - a) k (drop a s) (omega arith)

pub slice_above-put :
    (a b i : ℕ) (w s : Bytes)
    → i + length w ≤ a
    → i ≤ length s
    → slice a b (put i w s) ≡ slice a b s
slice_above-put a b i w s le fits = ap (take (b - a)) (drop-put i a w s fits le)

pub slice_at-put :
    (i b : ℕ) (w s : Bytes) → b ≡ i + length w → i ≤ length s → slice i b (put i w s) ≡ w
slice_at-put i b w s e fits =
    let tail = w ++ drop (i + length w) s in
    ap (λ x. take (b - i) (drop i x)) (put_parts i w s)
    ∙ ap (take (b - i)) (drop-append (take i s) tail i (length_start i s fits))
    ∙ take-append w (drop (i + length w) s) (b - i) (omega (arith, e))
