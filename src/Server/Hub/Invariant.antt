-- ===== src/Server/Hub/Invariant.antt =====
-- The invariant of the server of internal/server/server.go: the maps of online devices agree with
-- the devices.
use sulink_lan.Base.{ℕ, ◌<◌, ◌≡◌, ◌≢◌, ◌∙◌, refl, Bool, [], none, some, Str, arith}
use sulink_lan.Base.Eq.{nat_eq, str_eq}
use sulink_lan.Base.Map.{lookup, lookup-insert}
use sulink_lan.Base.Bytes.{Bytes}
use sulink_lan.Server.Hub.{Server, Device, update, Phase, awaits, ended, is_some}

-- The address and the name of a device; 0 and the empty name before it is registered.
unfoldable pub vip_of : ℕ → Server → ℕ
vip_of id s = elim (lookup id s.conns) [ none ↦ 0 | some d ↦ d.vip ]

unfoldable pub name_of : ℕ → Server → Str
name_of id s = elim (lookup id s.conns) [ none ↦ [] | some d ↦ d.name ]

unfoldable pub phase_of : ℕ → Server → Phase
phase_of id s = elim (lookup id s.conns) [ none ↦ ended | some d ↦ d.phase ]

unfoldable pub known : ℕ → Server → Bool
unfolding is_some
known id s = is_some (lookup id s.conns)

pub record Listed (s : Server) : Type 0 where
  pub online :
      (vip id : ℕ)
      → lookup vip s.devices ≡ some id
      → (vip_of id s ≡ vip) × (vip ≢ 0) × (lookup (name_of id s) s.by_id ≡ some id)
  pub named :
      (n : Str) (id : ℕ) → lookup n s.by_id ≡ some id → (name_of id s ≡ n) × (vip_of id s ≢ 0)

-- Two states that differ in nothing that `Listed` reads.
pub record SameList (s u : Server) : Type 0 where
  pub devices : u.devices ≡ s.devices
  pub by_id : u.by_id ≡ s.by_id
  pub vips : (id : ℕ) → vip_of id u ≡ vip_of id s
  pub names : (id : ℕ) → name_of id u ≡ name_of id s
  pub phases : (id : ℕ) → phase_of id u ≡ phase_of id s
  pub same_ids : (id : ℕ) → known id u ≡ known id s
  pub start : u.leases.pool.start ≡ s.leases.pool.start

pub SameList-refl : (s : Server) → SameList s s
SameList-refl s = record {
  devices = refl;
  by_id = refl;
  vips = λ id. refl;
  names = λ id. refl;
  phases = λ id. refl;
  same_ids = λ id. refl;
  start = refl;
}

pub SameList-trans : {s t u : Server} → SameList s t → SameList t u → SameList s u
SameList-trans a b = record {
  devices = b.devices ∙ a.devices;
  by_id = b.by_id ∙ a.by_id;
  vips = λ id. b.vips id ∙ a.vips id;
  names = λ id. b.names id ∙ a.names id;
  phases = λ id. b.phases id ∙ a.phases id;
  same_ids = λ id. b.same_ids id ∙ a.same_ids id;
  start = b.start ∙ a.start;
}

pub SameList-Listed : {s u : Server} → SameList s u → Listed s → Listed u
SameList-Listed {s} {u} f x = record {
  online = λ vip id e. grind (arith, f.devices, f.by_id, f.vips id, f.names id, x.online vip id);
  named = λ n id e. grind (arith, f.by_id, f.vips id, f.names id, x.named n id);
}

-- A write to a device that keeps its address, its name and its phase.
pub update-SameList :
    (id : ℕ) (f : Device → Device) (s : Server)
    → ((d : Device) → ((f d).vip ≡ d.vip) × ((f d).name ≡ d.name) × ((f d).phase ≡ d.phase))
    → SameList s (update id f s)
unfolding update vip_of name_of phase_of known
update-SameList id f s keeps = record {
  devices = grind arith;
  by_id = grind arith;
  vips = λ i. grind (arith, lookup-insert, keeps);
  names = λ i. grind (arith, lookup-insert, keeps);
  phases = λ i. grind (arith, lookup-insert, keeps);
  same_ids = λ i. grind (arith, lookup-insert);
  start = grind arith;
}

-- The state in which device `id` may be half registered.
pub record Entering (id : ℕ) (s : Server) : Type 0 where
  pub listed : Listed s
  pub positive : 0 < s.leases.pool.start
  pub waiting : (i : ℕ) (c : Bytes) → i ≢ id → phase_of i s ≡ awaits c → vip_of i s ≡ 0

-- The invariant of the server: besides `Listed`, a connection that waits for its first message has
-- no address, and no address of the pool is 0.
pub record IsValid (s : Server) : Type 0 where
  pub listed : Listed s
  pub positive : 0 < s.leases.pool.start
  pub waiting : (i : ℕ) (c : Bytes) → phase_of i s ≡ awaits c → vip_of i s ≡ 0

pub IsValid-Entering : {s : Server} (id : ℕ) → IsValid s → Entering id s
IsValid-Entering id x = record {
  listed = x.listed;
  positive = x.positive;
  waiting = λ i c ne e. x.waiting i c e;
}

pub SameList-IsValid : {s u : Server} → SameList s u → IsValid s → IsValid u
SameList-IsValid {s} {u} f x = record {
  listed = SameList-Listed f x.listed;
  positive = grind (arith, f.start, x.positive);
  waiting = λ i c e. grind (arith, f.vips i, f.phases i, x.waiting i c);
}

pub SameList-Entering : {s u : Server} (id : ℕ) → SameList s u → Entering id s → Entering id u
SameList-Entering {s} {u} id f x = record {
  listed = SameList-Listed f x.listed;
  positive = grind (arith, f.start, x.positive);
  waiting = λ i c ne e. grind (arith, f.vips i, f.phases i, x.waiting i c);
}

-- The goroutine of device `id` moves on from its first message.
pub set_phase-IsValid :
    {s : Server} (id : ℕ) (ph : Phase)
    → ((c : Bytes) → ph ≢ awaits c)
    → Entering id s
    → IsValid (update id (λ d. record d { phase = ph }) s)
unfolding update vip_of name_of phase_of
set_phase-IsValid {s} id ph moved x = record {
  listed = record {
    online = λ v i e. grind (arith, lookup-insert, x.listed.online v i);
    named = λ n i e. grind (arith, lookup-insert, x.listed.named n i);
  };
  positive = grind (arith, x.positive);
  waiting = λ i c e. grind (arith, lookup-insert, moved c, x.waiting i c);
}
