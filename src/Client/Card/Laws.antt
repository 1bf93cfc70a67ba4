-- ===== src/Client/Card/Laws.antt =====
-- internal/client/tun_config.go: setting the card of Windows up again.
use mathlib.Core.Path.{subst}
use sulink_lan.Base.{
  sym, Bool, Bool-cases, Option-cases, ◌⊎◌, Result, err, List, ◌∙◌, ◌≡◌, ◌≢◌, inl, inr, refl, true,
  false, [], ◌∷◌, Option, none, some, ok, Str, arith,
}
use sulink_lan.Base.Net.{is_ip}
use sulink_lan.Base.Eq.{==ₛ_iff}
use sulink_lan.Client.Card.{
  PlatformCommand, CardError, command_failed, windows, delete_address, set_address, add_route,
  set_dns, configure, windows_commands, run_commands, tun_commands, validate_tun_config,
  is_benign_command_error, contains_any, route_exists_texts,
}

-- What netsh does with a card, as far as the commands go: deleting an address that is not there fails
-- with some text, adding a route that is there fails and says so, and all else succeeds.
pub record Netsh (O : Type 0) (if_name ip : Str) : Type 0 where
  pub exec : PlatformCommand → O → Option Str × O
  pub has_address : O → Bool
  pub has_route : O → Bool
  pub delete_works :
      (o : O)
      → has_address o ≡ true
      → ((exec (delete_address if_name ip) o).0 ≡ none)
        × (has_address (exec (delete_address if_name ip) o).1 ≡ false)
        × (has_route (exec (delete_address if_name ip) o).1 ≡ has_route o)
  pub missing : O → Str
  pub delete_fails :
      (o : O) → has_address o ≡ false → exec (delete_address if_name ip) o ≡ (some (missing o), o)
  pub set_works :
      (o : O)
      → has_address o ≡ false
      → ((exec (set_address if_name ip) o).0 ≡ none)
        × (has_address (exec (set_address if_name ip) o).1 ≡ true)
        × (has_route (exec (set_address if_name ip) o).1 ≡ has_route o)
  pub add_works :
      (o : O)
      → has_route o ≡ false
      → ((exec (add_route if_name ip) o).0 ≡ none)
        × (has_route (exec (add_route if_name ip) o).1 ≡ true)
        × (has_address (exec (add_route if_name ip) o).1 ≡ has_address o)
  pub exists : O → Str
  pub exists_said : (o : O) → contains_any (exists o) route_exists_texts ≡ true
  pub add_fails :
      (o : O) → has_route o ≡ true → exec (add_route if_name ip) o ≡ (some (exists o), o)
  pub dns_works :
      (o : O)
      → ((exec (set_dns if_name) o).0 ≡ none)
        × (has_route (exec (set_dns if_name) o).1 ≡ has_route o)
        × (has_address (exec (set_dns if_name) o).1 ≡ has_address o)

add_benign :
    (if_name ip text : Str)
    → contains_any text route_exists_texts ≡ true
    → is_benign_command_error (add_route if_name ip) text ≡ true
unfolding is_benign_command_error
add_benign if_name ip text h = ground (arith, h)

-- A command that succeeds or fails harmlessly is passed over.
run_commands-cons :
    {O : Type 0} (exec : PlatformCommand → O → Option Str × O) (cmd : PlatformCommand)
    (cmds : List PlatformCommand) (o : O)
    → ((text : Str) → (exec cmd o).0 ≡ some text → is_benign_command_error cmd text ≡ true)
    → run_commands exec (cmd ∷ cmds) o ≡ run_commands exec cmds (exec cmd o).1
unfolding run_commands
run_commands-cons exec cmd cmds o harmless = elim (Option-cases (exec cmd o).0) [
  | inl none' ↦ ground (arith, none')
  | inr (text, e) ↦ ground (arith, e, harmless text e)
]

module _ {O : Type 0} {if_name ip : Str} (sh : Netsh O if_name ip) where
  -- The address is there to be deleted, or `isBenignCommandError` knows the answer that it is not.
  abbrev Passes : O → Type 0
  Passes o =
      (sh.has_address o ≡ true)
      ⊎ ((sh.has_address o ≡ false)
          × (is_benign_command_error (delete_address if_name ip) (sh.missing o) ≡ true))

  -- How `Configure` ends on a card in state `o`.
  pub data Configured (o : O) : Result CardError (Unit {0}) × O → Type 0 where
    set_up : (o' : O) → sh.has_address o' ≡ true → sh.has_route o' ≡ true → Configured o (ok tt, o')
    stopped :
        sh.has_address o ≡ false
        → is_benign_command_error (delete_address if_name ip) (sh.missing o) ≡ false
        → Configured o (err (command_failed (delete_address if_name ip) (sh.missing o)), o)

  -- The state after the first command, also if it fails.
  address_set :
      (o : O)
      → let o1 = (sh.exec (delete_address if_name ip) o).1 in
        (sh.has_address o1 ≡ false) × (sh.has_route o1 ≡ sh.has_route o)
  address_set o = elim (Bool-cases (sh.has_address o)) [
    | inl here ↦ let w = sh.delete_works o here in (w.1, w.2)
    | inr gone ↦ grind (arith, sh.delete_fails o gone)
  ]

  deleted :
      (o : O) {text : Str}
      → Passes o
      → (sh.exec (delete_address if_name ip) o).0 ≡ some text
      → is_benign_command_error (delete_address if_name ip) text ≡ true
  deleted o {text} (inl here) e = absurd (ground (arith, sh.delete_works o here))
  deleted o {text} (inr (gone, known)) e = ground (arith, sh.delete_fails o gone, known)

  added :
      (o : O) {text : Str}
      → (sh.exec (add_route if_name ip) o).0 ≡ some text
      → is_benign_command_error (add_route if_name ip) text ≡ true
  added o {text} e = elim (Bool-cases (sh.has_route o)) [
    | inl here ↦ add_benign if_name ip text (ground (arith, sh.add_fails o here, sh.exists_said o))
    | inr gone ↦ absurd (ground (arith, sh.add_works o gone))
  ]

  route_added :
      (o : O)
      → let o1 = (sh.exec (add_route if_name ip) o).1 in
        (sh.has_route o1 ≡ true) × (sh.has_address o1 ≡ sh.has_address o)
  route_added o = elim (Bool-cases (sh.has_route o)) [
    | inl here ↦ grind (arith, sh.add_fails o here)
    | inr gone ↦ let w = sh.add_works o gone in (w.1, w.2)
  ]

  configure_runs :
      (o : O)
      → if_name ≢ []
      → ip ≢ []
      → is_ip ip ≡ true
      → configure sh.exec windows if_name ip o
        ≡ run_commands sh.exec (windows_commands if_name ip) o
  unfolding configure tun_commands validate_tun_config
  configure_runs o named given valid = ground (arith, ==ₛ_iff if_name [], ==ₛ_iff ip [])

  passes :
      (o : O)
      → Passes o
      → let end = run_commands sh.exec (windows_commands if_name ip) o in
        (end.0 ≡ ok tt) × (sh.has_address end.1 ≡ true) × (sh.has_route end.1 ≡ true)
  unfolding run_commands
  passes o pass =
      let o1 = (sh.exec (delete_address if_name ip) o).1 in
      let o2 = (sh.exec (set_address if_name ip) o1).1 in
      let o3 = (sh.exec (add_route if_name ip) o2).1 in
      let first = address_set o in
      let second = sh.set_works o1 first.0 in
      let third = route_added o2 in
      let last = sh.dns_works o3 in
      let after_address = add_route if_name ip ∷ set_dns if_name ∷ [] in
      let chain =
        run_commands-cons sh.exec (delete_address if_name ip)
          (set_address if_name ip ∷ after_address) o (λ text e. deleted o {text = text} pass e)
        ∙ run_commands-cons sh.exec (set_address if_name ip) after_address o1
            (λ text e. absurd (cc (second.0, e)))
        ∙ run_commands-cons sh.exec (add_route if_name ip) (set_dns if_name ∷ []) o2
            (λ text e. added o2 {text = text} e)
        ∙ run_commands-cons sh.exec (set_dns if_name) [] o3 (λ text e. absurd (cc (last.0, e))) in
      rw chain (refl, last.2 ∙ third.1 ∙ second.1, last.1 ∙ third.0)

  run-Configured :
      (o : O) → Passes o → Configured o (run_commands sh.exec (windows_commands if_name ip) o)
  run-Configured o pass =
      let end = run_commands sh.exec (windows_commands if_name ip) o in
      let done = passes o pass in
      subst (λ r. Configured o (r, end.1)) (sym done.0) (set_up end.1 done.1 done.2)

  fails :
      (o : O)
      → sh.has_address o ≡ false
      → is_benign_command_error (delete_address if_name ip) (sh.missing o) ≡ false
      → run_commands sh.exec (windows_commands if_name ip) o
        ≡ (err (command_failed (delete_address if_name ip) (sh.missing o)), o)
  unfolding run_commands
  fails o gone unknown = ground (arith, sh.delete_fails o gone, unknown)

  -- On Windows `Configure` ends in one of two ways: the card has its address and its route, whatever of
  -- the two is left over from an earlier session; or it had no address and netsh answers to the first
  -- command with a text that `isBenignCommandError` does not know, and `Configure` fails before it does
  -- anything. Of netsh it is assumed that adding a route that is there fails with a text of
  -- `routeExistsTexts`, that deleting an address that is not there fails with some text, and that all else
  -- works, for a valid address and a named card.
  pub configure_again :
      (o : O)
      → if_name ≢ []
      → ip ≢ []
      → is_ip ip ≡ true
      → Configured o (configure sh.exec windows if_name ip o)
  configure_again o named given valid =
      let texts = is_benign_command_error (delete_address if_name ip) (sh.missing o) in
      rw (configure_runs o named given valid) (elim (Bool-cases (sh.has_address o)) [
        | inl here ↦ run-Configured o (inl here)
        | inr gone ↦ elim (Bool-cases texts) [
          | inl known ↦ run-Configured o (inr (gone, known))
          | inr unknown ↦ subst (Configured o) (sym (fails o gone unknown)) (stopped gone unknown)
        ]
      ])
