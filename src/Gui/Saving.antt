-- ===== src/Gui/Saving.antt =====
-- internal/gui/bridge.go: a form of the page that is saved.
use mathlib.Core.Path.{subst}
use sulink_lan.Base.Text.{trim_space}
use sulink_lan.Base.{
  ℕ, false, ◌≡◌, refl, sym, ap, ◌∙◌, inl, inr, Option-cases, true, [], Option, none, some, Str,
  ◌==ₛ◌, arith, option_cases, if_cases,
}
use sulink_lan.Base.Eq.{nat_eq}
use sulink_lan.Base.Map.{lookup, lookup-insert}
use sulink_lan.Base.Bytes.{Bytes}
use sulink_lan.Config.{
  Config, Json, Writing, ConfigError, stops, not_renamed, renamed, load, save, fill_server,
  default_config, validate,
}
use sulink_lan.Config.{read_over}
use sulink_lan.Config.Laws.{read_over_default}
use sulink_lan.Gui.{
  App, Reply, done, saved_note, Note, polling, Worker, no_config, save_config, saved, store,
  keep_name, validate_partial, connect, start_worker, client_config, log_event,
}

-- A configuration without a credential.
pub record HasNoCredential (c : Config) : Type 0 where
  pub id : c.device_id ≡ []
  pub key : c.device_key ≡ []
  pub network : c.network_key ≡ []

-- Saving succeeds only if the file has the new configuration.
record Stored (j : Json) (host : Str) (c : Config) (a : App) (b : App) : Type 0 where
  cfg : b.cfg ≡ c
  file : (load j host b.folder).0 ≡ fill_server c
  cli : b.cli ≡ a.cli

store-Stored :
    (j : Json) (w : Writing) (c : Config) (host : Str) (a : App)
    → ((c d : Config) → j.unmarshal (j.marshal c) d ≡ some (read_over c d))
    → a.folder.readable ≡ true
    → (store j w c a).0 ≡ none
    → Stored j host c a (store j w c a).1
unfolding store save load
store-Stored j (stops bytes) c host a law readable fine = absurd (ground (arith, fine))
store-Stored j not_renamed c host a law readable fine = absurd (ground (arith, fine))
store-Stored j renamed c host a law readable fine = record {
  cfg = refl;
  file = grind (arith, law c (default_config host), read_over_default c host);
  cli = refl;
}

saved-Stored :
    (j : Json) (host : Str) (c : Config) (a : App) (now : ℕ) (note : Note)
    (r : Option ConfigError × App)
    → (r.0 ≡ none → Stored j host c a r.1)
    → (saved now note r).0 ≡ done
    → Stored j host c a (saved now note r).1
unfolding saved log_event
saved-Stored j host c a now note (none, b) h fine =
    let x = h refl in record { cfg = x.cfg; file = x.file; cli = x.cli }
saved-Stored j host c a now note (some e, b) h fine = absurd (ground (arith, fine))

-- The key of a client.
pub key_of : Option Worker → Option Str
key_of none = none
key_of (some u) = some u.settings.device_key

-- Neither the application nor its file has a credential, and the next client gets none.
pub record IsForgotten (j : Json) (host : Str) (later : ℕ) (b : App) : Type 0 where
  pub here : HasNoCredential b.cfg
  pub file : HasNoCredential (load j host b.folder).0
  pub next : key_of (lookup b.next (connect later b).1.workers) ≡ some []

keep_name-HasNoCredential :
    (c form : Config) → HasNoCredential form → HasNoCredential (keep_name c form)
unfolding keep_name
keep_name-HasNoCredential c form x =
    if_cases HasNoCredential (form.name ==ₛ [])
      (λ _. record { id = x.id; key = x.key; network = x.network }) λ _. x

fill_server-HasNoCredential : (c : Config) → HasNoCredential c → HasNoCredential (fill_server c)
unfolding fill_server
fill_server-HasNoCredential c x =
    if_cases HasNoCredential (trim_space c.server ==ₛ [])
      (λ _. record { id = x.id; key = x.key; network = x.network }) λ _. x

started_key :
    (b : App) (later : ℕ)
    → b.cli ≡ none
    → (connect later b).0 ≡ done
    → key_of (lookup b.next (connect later b).1.workers) ≡ some b.cfg.device_key
unfolding connect start_worker client_config log_event key_of
started_key b later off fine =
    let made : Worker = record {
      settings = client_config b.cfg;
      phase = polling;
      is_done = false;
    } in
    elim (Option-cases (validate b.cfg)) [
      | inl valid ↦ ground (arith, off, valid, lookup-insert b.next b.next made b.workers)
      | inr (e, wrong) ↦ absurd (ground (arith, off, wrong, fine))
    ]

-- `SaveConfig`, when it succeeds with a form that has no credential, as the page sends it, erases
-- the credential of the device in the application and in its file. No client runs, and the next
-- `Connect`, which succeeds, makes one that has no key. The file can be read, and encoding/json
-- reads what it wrote, where a credential field that was empty leaves the one that it is read over.
pub save_config_forgets :
    (j : Json) (now later : ℕ) (w : Writing) (payload : Bytes) (form : Config) (host : Str)
    (a : App)
    → ((c d : Config) → j.unmarshal (j.marshal c) d ≡ some (read_over c d))
    → a.folder.readable ≡ true
    → a.cli ≡ none
    → j.unmarshal payload no_config ≡ some form
    → HasNoCredential form
    → (save_config j now w payload a).0 ≡ done
    → (connect later (save_config j now w payload a).1).0 ≡ done
    → IsForgotten j host later (save_config j now w payload a).1
unfolding save_config
save_config_forgets j now later w payload form host a law readable off read bare =
    option_cases Goal (j.unmarshal payload no_config) (λ e. absurd (ground (arith, e, read)))
      λ f e.
        let c = keep_name a.cfg f in
        option_cases Goal (validate_partial c)
          (λ _ fine on.
            let x =
              saved-Stored j host c a now saved_note (store j w c a)
                (store-Stored j w c host a law readable) fine in
            forgotten c (saved now saved_note (store j w c a)).1
              (keep_name-HasNoCredential a.cfg f (same f e)) x on)
          λ _ _ fine _. absurd (ground (arith, fine))
  where
    Goal : Reply × App → Type 0
    Goal r = r.0 ≡ done → (connect later r.1).0 ≡ done → IsForgotten j host later r.1

    forgotten :
        (c : Config) (b : App)
        → HasNoCredential c
        → Stored j host c a b
        → (connect later b).0 ≡ done
        → IsForgotten j host later b
    forgotten c b y x on = record {
      here = subst HasNoCredential (sym x.cfg) y;
      file = subst HasNoCredential (sym x.file) (fill_server-HasNoCredential c y);
      next = started_key b later (x.cli ∙ off) on ∙ ap some (ap (λ c. c.device_key) x.cfg ∙ y.key);
    }

    same : (f : Config) → j.unmarshal payload no_config ≡ some f → HasNoCredential f
    same f e = record {
      id = cc (e, read, bare.id);
      key = cc (e, read, bare.key);
      network = cc (e, read, bare.network);
    }
