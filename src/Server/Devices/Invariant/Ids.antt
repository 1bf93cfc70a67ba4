-- ===== src/Server/Devices/Invariant/Ids.antt =====
-- The credential index of internal/server/devices.go under the operations on credentials.
use sulink_lan.Base.{
  ◌≡◌, ◌≢◌, refl, false, List, [], some, Result, err, Str, ◌==ₛ◌, arith, At, Bool, not, ◌&&◌, ◌||◌,
  if_cases, option_cases, result_cases,
}
use mathlib.Core.Path.{subst}
use sulink_lan.Forward.{parse_set}
use sulink_lan.Base.Eq.{str_eq, ==ₛ_iff}
use sulink_lan.Base.Map.{lookup, lookup-insert, lookup-delete, delete, insert}
use sulink_lan.Server.Devices.{
  DeviceRecord, DeviceTable, DeviceError, taken_by_other, rec_of, put, save_locked, set_credential,
  clear_credential, block, unblock, set_forward,
}
use sulink_lan.Server.Devices.Invariant.{IdIndex, rec_of-put, rec_of-lookup}

-- A write that leaves the record's credential alone.
pub IdIndex-put :
    {t : DeviceTable} (h : Str) (r : DeviceRecord)
    → IdIndex t
    → r.device_id ≡ (rec_of t h).device_id
    → IdIndex (put t h r)
unfolding put
IdIndex-put {t} h r x e = record {
  index = λ d j l. ground (arith, rec_of-put t h j r, ==ₛ_iff h j, x.index d j);
  entry = λ j n. ground (arith, rec_of-put t h j r, ==ₛ_iff h j, x.entry j);
}

-- The device's credential leaves the index and the record.
IdIndex-drop :
    {t : DeviceTable} (h : Str) (r : DeviceRecord)
    → IdIndex t
    → r.device_id ≡ []
    → (rec_of t h).device_id ≢ []
    → IdIndex (put (record t { by_device_id = delete (rec_of t h).device_id t.by_device_id }) h r)
unfolding put rec_of
IdIndex-drop {t} h r x e n = record {
  index = λ d j l. ground (
    arith,
    lookup-insert j h r t.by_hwid,
    lookup-delete d (rec_of t h).device_id t.by_device_id,
    ==ₛ_iff h j,
    ==ₛ_iff (rec_of t h).device_id d,
    x.index d j,
    x.entry h,
  );
  entry = λ j m. ground (
    arith,
    lookup-insert j h r t.by_hwid,
    lookup-delete (rec_of t j).device_id (rec_of t h).device_id t.by_device_id,
    ==ₛ_iff h j,
    ==ₛ_iff (rec_of t h).device_id (rec_of t j).device_id,
    x.entry j,
    x.entry h,
  );
}

-- A new credential is given to a device that has none.
IdIndex-add :
    {t : DeviceTable} (h d : Str) (r : DeviceRecord)
    → IdIndex t
    → r.device_id ≡ d
    → d ≢ []
    → (rec_of t h).device_id ≡ []
    → ((owner : Str) → lookup d t.by_device_id ≡ some owner → owner ≡ h)
    → IdIndex (record (put t h r) { by_device_id = insert d h t.by_device_id })
unfolding put rec_of
IdIndex-add {t} h d r x e n none_yet free = record {
  index = λ c j l. ground (
    arith,
    lookup-insert j h r t.by_hwid,
    lookup-insert c d h t.by_device_id,
    ==ₛ_iff h j,
    ==ₛ_iff d c,
    x.index c j,
  );
  entry = λ j m. ground (
    arith,
    lookup-insert j h r t.by_hwid,
    lookup-insert (rec_of t j).device_id d h t.by_device_id,
    lookup-insert d d h t.by_device_id,
    ==ₛ_iff h j,
    ==ₛ_iff d (rec_of t j).device_id,
    ==ₛ_iff d d,
    x.entry j,
    free j,
  );
}

IdIndex-save : {t : DeviceTable} → IdIndex t → IdIndex (save_locked t)
unfolding save_locked rec_of
IdIndex-save x = record { index = x.index; entry = x.entry }

-- The write that `rec := &deviceRecord{...}` makes for a missing record changes no credential.
IdIndex-touch : {t : DeviceTable} (h : Str) → IdIndex t → IdIndex (put t h (rec_of t h))
IdIndex-touch {t} h x = IdIndex-put h (rec_of t h) x refl

-- The table that a call returns beside its answer has an exact index.
abbrev Answer : Result DeviceError (Unit {0}) × DeviceTable → Type 0
Answer = At (λ r. r.1) IdIndex

abbrev Change : DeviceTable × Bool → Type 0
Change = At (λ r. r.0) IdIndex

-- `SetCredential` keeps the credential index, whether it succeeds or fails.
pub set_credential-IdIndex :
    (t : DeviceTable) (h name d key : Str) → IdIndex t → IdIndex (set_credential t h name d key).1
unfolding set_credential
set_credential-IdIndex t h name d key x =
    let r : Answer (set_credential t h name d key) =
      if_cases Answer (h ==ₛ [] || d ==ₛ [] || key ==ₛ []) (λ _. same)
        λ given.
          if_cases Answer (taken_by_other (lookup d t.by_device_id) h) (λ _. same)
            λ free.
              if_cases Answer (not ((rec_of t h).device_id ==ₛ []))
                (λ _. record { holds = IdIndex-touch h x })
                λ unset. record {
                  holds = IdIndex-save (
                      IdIndex-add h d _ x refl (ground (arith, ==ₛ_iff d [], given))
                        (ground (arith, ==ₛ_iff (rec_of t h).device_id [], unset))
                        λ owner e. ground (arith, ==ₛ_iff owner h, e, free));
                } in
    r.holds
  where
    same : {e : DeviceError} → Answer (err e, t)
    same = record { holds = x }

IdIndex-drop_record :
    {t : DeviceTable} (h : Str) (r q : DeviceRecord)
    → IdIndex t
    → lookup h t.by_hwid ≡ some r
    → q.device_id ≡ []
    → r.device_id ≢ []
    → IdIndex (put (record t { by_device_id = delete r.device_id t.by_device_id }) h q)
IdIndex-drop_record {t} h r q x found e n =
    let same : rec_of t h ≡ r = rec_of-lookup t h found in
    subst (λ a. IdIndex (put (record t { by_device_id = delete a.device_id t.by_device_id }) h q))
      same (IdIndex-drop h q x e (rw same n))

pub clear_credential-IdIndex :
    (t : DeviceTable) (h : Str) → IdIndex t → IdIndex (clear_credential t h).0
unfolding clear_credential
clear_credential-IdIndex t h x =
    let r : Change (clear_credential t h) =
      if_cases Change (h ==ₛ []) (λ _. same)
        λ _.
          option_cases Change (lookup h t.by_hwid) (λ _. same)
            λ r found.
              if_cases Change (r.device_id ==ₛ []) (λ _. same)
                λ set. record {
                  holds = IdIndex-save (
                      IdIndex-drop_record h r _ x found refl
                        (ground (arith, ==ₛ_iff r.device_id [], set)));
                } in
    r.holds
  where
    same : Change (t, false)
    same = record { holds = x }

pub block-IdIndex : (t : DeviceTable) (h : Str) → IdIndex t → IdIndex (block t h).0
unfolding block
block-IdIndex t h x =
    let r : Change (block t h) =
      if_cases Change (h ==ₛ []) (λ _. record { holds = x })
        λ _.
          if_cases Change ((rec_of t h).blocked && (rec_of t h).device_id ==ₛ [])
            (λ _. record { holds = IdIndex-touch h x })
            λ _. record {
              holds = IdIndex-save (
                  if_cases IdIndex ((rec_of t h).device_id ==ₛ []) (λ _. IdIndex-put h _ x refl)
                    λ set.
                      IdIndex-drop h _ x refl
                        (ground (arith, ==ₛ_iff (rec_of t h).device_id [], set)));
            } in
    r.holds

pub unblock-IdIndex : (t : DeviceTable) (h : Str) → IdIndex t → IdIndex (unblock t h).0
unfolding unblock
unblock-IdIndex t h x =
    let r : Change (unblock t h) =
      if_cases Change (h ==ₛ []) (λ _. same)
        λ _.
          option_cases Change (lookup h t.by_hwid) (λ _. same)
            λ r found.
              if_cases Change r.blocked
                (λ _. record {
                  holds = IdIndex-save (IdIndex-put h _ x (rw (rec_of-lookup t h found)));
                })
                λ _. same in
    r.holds
  where
    same : Change (t, false)
    same = record { holds = x }

pub set_forward-IdIndex :
    (t : DeviceTable) (h : Str) (rules : List Str) → IdIndex t → IdIndex (set_forward t h rules).1
unfolding set_forward
set_forward-IdIndex t h rules x =
    let r : Answer (set_forward t h rules) =
      if_cases Answer (h ==ₛ []) (λ _. record { holds = x })
        λ _.
          result_cases Answer (parse_set rules) (λ _ _. record { holds = x })
            λ _ _. record { holds = IdIndex-save (IdIndex-put h _ x refl) } in
    r.holds
