-- ===== src/Admin/Start/Guarded.antt =====
-- cmd/server/main.go: the page that the server starts, and its token.
use mathlib.Core.Path.{subst}
use sulink_lan.Base.Text.Trim.{trim_space-All}
use sulink_lan.Base.{
  ℕ, ◌≡◌, ◌≢◌, ◌⊎◌, Bool-cases, sym, ap, ◌∙◌, refl, Bool, true, false, [], Option, none, some, Str,
  ◌==ₛ◌, arith, if_cases, option_cases, inl, inr, if◌then◌else◌,
}
use sulink_lan.Base.Eq.{==ₛ_iff}
use sulink_lan.Base.Text.{trim_space}
use sulink_lan.Base.Bytes.{Bytes}
use sulink_lan.Base.Encode.{raw_url_encode, raw_url_encode_plain, raw_url_encode_ne}
use sulink_lan.Npsembed.{Nps}
use sulink_lan.Admin.{PageConfig, Request, Backend, Decoder, new_page}
use sulink_lan.Admin.Serve.{serve}
use sulink_lan.Admin.Serve.Guarded.{Open, serve_without_token}
use sulink_lan.Admin.Start.{start_admin, with_page, is_off, random_token}

-- The page has the token of the flag, or else of the environment variable, or else one that was drawn;
-- there is none if it is closed, if nothing can be drawn, or if the token given is blank.
pub data Started (addr token env : Str) (rand : Option Bytes)
    : Option (PageConfig × Bool) → Type 0 where
  off : is_off addr ≡ true → Started addr token env rand none
  no_random : token ≡ [] → env ≡ [] → rand ≡ none → Started addr token env rand none
  blank_flag : token ≢ [] → trim_space token ≡ [] → Started addr token env rand none
  blank_variable : token ≡ [] → env ≢ [] → trim_space env ≡ [] → Started addr token env rand none
  flag :
      token ≢ []
      → trim_space token ≢ []
      → Started addr token env rand (some (record { addr = addr; token = token }, false))
  variable :
      token ≡ []
      → env ≢ []
      → trim_space env ≢ []
      → Started addr token env rand (some (record { addr = addr; token = env }, false))
  drawn :
      (bytes : Bytes)
      → token ≡ []
      → env ≡ []
      → rand ≡ some bytes
      → Started addr token env rand
          (some (record { addr = addr; token = raw_url_encode bytes }, true))

-- A page with an address keeps it, and has the token unless that is blank.
with_page_cases :
    (P : Option (PageConfig × Bool) → Type 0) (addr token : Str) (generated : Bool)
    → addr ≢ []
    → (trim_space token ≡ [] → P none)
    → (trim_space token ≢ [] → P (some (record { addr = addr; token = token }, generated)))
    → P (with_page generated (new_page (record { addr = addr; token = token })))
unfolding with_page new_page
with_page_cases P addr token generated ne f g = elim (Bool-cases (trim_space token ==ₛ [])) [
  | inl blank ↦ subst P (ground (arith, blank)) (f (ground (arith, ==ₛ_iff (trim_space token) [])))
  | inr fine ↦
      subst P (ground (arith, fine, ne, ==ₛ_iff addr []))
        (g (ground (arith, ==ₛ_iff (trim_space token) [])))
]

trim_space-empty : trim_space [] ≡ []
unfolding trim_space
trim_space-empty = refl

digits_left : (bytes : Bytes) → bytes ≢ [] → trim_space (raw_url_encode bytes) ≢ []
digits_left bytes ne e =
    raw_url_encode_ne bytes ne (sym (trim_space-All _ (raw_url_encode_plain bytes)) ∙ e)

module _ (addr token env : Str) (rand : Option Bytes) where
  chosen : Str
  chosen = if token ==ₛ [] then env else token

  chosen_lem : ((token ≡ []) × (chosen ≡ env)) ⊎ ((token ≢ []) × (chosen ≡ token))
  unfolding chosen
  chosen_lem = elim (Bool-cases (token ==ₛ [])) [
    | inl e ↦ inl (ground (arith, ==ₛ_iff token []))
    | inr e ↦ inr (ground (arith, ==ₛ_iff token []))
  ]

  nothing_given : (chosen ==ₛ []) ≡ true → (token ≡ []) × (env ≡ [])
  nothing_given empty = elim chosen_lem [
    | inl (t, c) ↦ (t, ground (arith, c, empty, ==ₛ_iff chosen []))
    | inr (ne, c) ↦ absurd (ground (arith, ne, c, empty, ==ₛ_iff chosen []))
  ]

  when_blank : (chosen ==ₛ []) ≡ false → trim_space chosen ≡ [] → Started addr token env rand none
  when_blank given blank = elim chosen_lem [
    | inl (t, c) ↦
        blank_variable t (λ e. ground (arith, c, e, given, ==ₛ_iff chosen []))
          (ap trim_space (sym c) ∙ blank)
    | inr (ne, c) ↦ blank_flag ne (ap trim_space (sym c) ∙ blank)
  ]

  when_fine :
      (chosen ==ₛ []) ≡ false
      → trim_space chosen ≢ []
      → Started addr token env rand (some (record { addr = addr; token = chosen }, false))
  when_fine given fine = elim chosen_lem [
    | inl (t, c) ↦
        subst (λ x. Started addr token env rand (some (record { addr = addr; token = x }, false)))
          (sym c)
          (variable t (λ e. ground (arith, c, e, given, ==ₛ_iff chosen []))
            λ b. fine (ap trim_space c ∙ b))
    | inr (ne, c) ↦
        subst (λ x. Started addr token env rand (some (record { addr = addr; token = x }, false)))
          (sym c) (flag ne λ b. fine (ap trim_space c ∙ b))
  ]

  start_admin-Started :
      ((bytes : Bytes) → rand ≡ some bytes → bytes ≢ [])
      → Started addr token env rand (start_admin addr token env rand)
  unfolding start_admin random_token is_off chosen
  start_admin-Started full = if_cases (Started addr token env rand) (is_off addr) off λ on.
      if_cases (Started addr token env rand) (chosen ==ₛ [])
        (λ empty.
          option_cases (Started addr token env rand) (random_token rand)
            (λ e. none_drawn rand refl e (nothing_given empty))
            λ t e. one_drawn rand refl e (here on) (nothing_given empty))
        λ given.
          with_page_cases (Started addr token env rand) addr chosen false (here on)
            (when_blank given) (when_fine given)
    where
      here : is_off addr ≡ false → addr ≢ []
      here on e = ground (arith, on, e, trim_space-empty, ==ₛ_iff (trim_space addr) [])

      none_drawn :
          (r : Option Bytes)
          → rand ≡ r
          → random_token r ≡ none
          → (token ≡ []) × (env ≡ [])
          → Started addr token env rand none
      none_drawn none e f (t, v) = no_random t v e
      none_drawn (some bytes) e f (t, v) = absurd (ground (arith, f))

      one_drawn :
          (r : Option Bytes) {t : Str}
          → rand ≡ r
          → random_token r ≡ some t
          → addr ≢ []
          → (token ≡ []) × (env ≡ [])
          → Started addr token env rand
              (with_page true (new_page (record { addr = addr; token = t })))
      one_drawn none e f ne (t, v) = absurd (ground (arith, f))
      one_drawn (some bytes) {t} e f ne (k, v) =
          let same : raw_url_encode bytes ≡ t = cc f in
          subst
            (λ x.
              Started addr token env rand
                (with_page true (new_page (record { addr = addr; token = x }))))
            same
            (with_page_cases (Started addr token env rand) addr (raw_url_encode bytes) true ne
              (λ b. absurd (digits_left bytes (full bytes e) b)) λ _. drawn bytes k v e)

-- If the server starts a management page, it does so as `Started` says, and a request to it
-- without a token changes nothing and sees nothing but open answers. `rand.Read` gives at least
-- one byte.
pub start_admin_guards :
    {S : Type 0} (addr token env : Str) (rand : Option Bytes) (page : PageConfig) (generated : Bool)
    → ((bytes : Bytes) → rand ≡ some bytes → bytes ≢ [])
    → start_admin addr token env rand ≡ some (page, generated)
    → (n : Nps S) (d : Decoder) (now : ℕ) (r : Request) (b : Backend S) → r.token ≡ []
    → Started addr token env rand (start_admin addr token env rand)
      × ((serve n page d now r b).1 ≡ b)
      × Open n r b (serve n page d now r b).0.body
start_admin_guards addr token env rand page generated full up n d now r b bare =
    let x = start_admin-Started addr token env rand full in
    let y = serve_without_token n page d now r b (λ e. not_empty x up (sym e ∙ bare)) in
    (x, y.0, y.1)
  where
    not_empty :
        {o : Option (PageConfig × Bool)}
        → Started addr token env rand o
        → o ≡ some (page, generated)
        → page.token ≢ []
    not_empty (flag t fine) e f = t (cc (e, f))
    not_empty (variable t v fine) e f = v (cc (e, f))
    not_empty (drawn bytes t v k) e f = raw_url_encode_ne bytes (full bytes k) (cc (e, f))
    not_empty (off o) e f = ground (arith, e)
    not_empty (no_random t v k) e f = ground (arith, e)
    not_empty (blank_flag t k) e f = ground (arith, e)
    not_empty (blank_variable t v k) e f = ground (arith, e)
