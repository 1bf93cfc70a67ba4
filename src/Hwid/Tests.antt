-- ===== src/Hwid/Tests.antt =====
-- A restart of internal/hwid/hwid.go at a concrete input.
use sulink_lan.Base.{◌≡◌, ◌++◌, refl, true, false, [], ◌∷◌, none, some, ok, arith}
use sulink_lan.Base.Bytes.{Bytes}
use sulink_lan.Base.Encode.{hex_encode}
use sulink_lan.Protocol.Samples.{tag}
use sulink_lan.Hwid.{Source, fingerprint, compute}
use sulink_lan.Hwid.Stable.{compute_again}

abbrev sha : Bytes → Bytes
sha text = text

abbrev first : Source
first = record {
  machine = none;
  has_path = true;
  file = none;
  writable = true;
  random = some (tag ++ tag);
}

abbrev second : Source
second = record {
  machine = none;
  has_path = true;
  file = some (hex_encode (tag ++ tag) ++ 10 ∷ []);
  writable = false;
  random = none;
}

found : (compute sha first).0 ≡ ok (fingerprint sha (hex_encode (tag ++ tag)))
unfolding compute
found = refl

left : second.file ≡ (compute sha first).1
unfolding compute
left = refl

compute_again_example : (compute sha second).0 ≡ ok (fingerprint sha (hex_encode (tag ++ tag)))
compute_again_example =
    compute_again sha first second (tag ++ tag) {id = fingerprint sha (hex_encode (tag ++ tag))}
      refl (omega arith) refl found refl refl left
