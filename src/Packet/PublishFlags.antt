-- ===== src/Packet/PublishFlags.antt =====
-- The flags of a PUBLISH in its fixed header (packet/mqtt_publish.cpp).
use shan_mqtt_broker.Packet.FixedHeader.{check_flags}
use shan_mqtt_broker.Base.{
  zero, ℕ, suc, ◌*◌, ◌/◌, ◌%◌, ◌<◌, ◌≡◌, refl, Bool, true, false, not, arith, ◌==◌, if◌then◌else◌,
}
use Prim.Native.Nat.{bit_and, bit_or}
use shan_mqtt_broker.Outcome.{ok}

abbrev pub flags_of : Bool → ℕ → Bool → ℕ
flags_of dup qos retain =
    bit_or 0
      (bit_or (bit_or (if dup then 0x08 else 0) (qos * 2 % 256)) (if retain then 0x01 else 0))

pub record FlagsRead (dup : Bool) (qos : ℕ) (retain : Bool) : Type 0 where
  pub dup_read : not (bit_and (flags_of dup qos retain) 0x08 == 0) ≡ dup
  pub qos_read : bit_and (flags_of dup qos retain) 0x06 / 2 ≡ qos
  pub retain_read : not (bit_and (flags_of dup qos retain) 0x01 == 0) ≡ retain
  pub in_bound : flags_of dup qos retain < 16
  pub checked : check_flags 3 (flags_of dup qos retain) ≡ ok tt

pub flags_read : (dup : Bool) (qos : ℕ) (retain : Bool) → qos < 3 → FlagsRead dup qos retain
unfolding check_flags
flags_read true zero true h = record {
  dup_read = refl;
  qos_read = refl;
  retain_read = refl;
  in_bound = omega arith;
  checked = refl;
}
flags_read true zero false h = record {
  dup_read = refl;
  qos_read = refl;
  retain_read = refl;
  in_bound = omega arith;
  checked = refl;
}
flags_read false zero true h = record {
  dup_read = refl;
  qos_read = refl;
  retain_read = refl;
  in_bound = omega arith;
  checked = refl;
}
flags_read false zero false h = record {
  dup_read = refl;
  qos_read = refl;
  retain_read = refl;
  in_bound = omega arith;
  checked = refl;
}
flags_read true (suc zero) true h = record {
  dup_read = refl;
  qos_read = refl;
  retain_read = refl;
  in_bound = omega arith;
  checked = refl;
}
flags_read true (suc zero) false h = record {
  dup_read = refl;
  qos_read = refl;
  retain_read = refl;
  in_bound = omega arith;
  checked = refl;
}
flags_read false (suc zero) true h = record {
  dup_read = refl;
  qos_read = refl;
  retain_read = refl;
  in_bound = omega arith;
  checked = refl;
}
flags_read false (suc zero) false h = record {
  dup_read = refl;
  qos_read = refl;
  retain_read = refl;
  in_bound = omega arith;
  checked = refl;
}
flags_read true (suc (suc zero)) true h = record {
  dup_read = refl;
  qos_read = refl;
  retain_read = refl;
  in_bound = omega arith;
  checked = refl;
}
flags_read true (suc (suc zero)) false h = record {
  dup_read = refl;
  qos_read = refl;
  retain_read = refl;
  in_bound = omega arith;
  checked = refl;
}
flags_read false (suc (suc zero)) true h = record {
  dup_read = refl;
  qos_read = refl;
  retain_read = refl;
  in_bound = omega arith;
  checked = refl;
}
flags_read false (suc (suc zero)) false h = record {
  dup_read = refl;
  qos_read = refl;
  retain_read = refl;
  in_bound = omega arith;
  checked = refl;
}
flags_read dup (suc (suc (suc n))) retain h = absurd (omega arith)
