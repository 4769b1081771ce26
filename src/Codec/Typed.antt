-- ===== src/Codec/Typed.antt =====
-- What `mqtt_codec::channel_read` (handler/mqtt_codec.cpp) passes on.
use shan_mqtt_broker.Base.{sym, ap, ◌∙◌, ◌≡◌, Option, none, some, Bool-cases, inl, inr, ltb}
use shan_mqtt_broker.Outcome.{
  Error, mqtt_error, runtime_error, not_enough, out_of_range, Result, ok, err, stuck,
}
use shan_mqtt_broker.Wire.Buffer.{StreamBuf, run}
use shan_mqtt_broker.Wire.Yields.{Returned, Yields-run}
use shan_mqtt_broker.Packet.FixedHeader.{FixedHeader, decode_fixed_header}
use shan_mqtt_broker.Packet.Any.{Packet, header, decode_packet}
use shan_mqtt_broker.Packet.Typed.{class_type, IsSound, Switched, decode_packet-Yields}
use shan_mqtt_broker.Codec.{
  Data, buffer, packet, other, Read, as_data, on_error, after_packet, after_header, read_buffer,
  codec_channel_read,
}

module _ (S : StreamBuf) where
  open S use {Buf, mark, size_call}

  -- A packet is of the class that its header asks for, and sound.
  abbrev pub IsCast : Data S → Type 0
  IsCast (buffer b) = Unit {0}
  IsCast (packet p) = (class_type p ≡ (header p).packet_type) × IsSound p
  IsCast other = Unit {0}

  abbrev pub Passes : Result (Read S) → Type 0
  Passes (ok r) = IsCast r.passed
  Passes (err e) = Unit {0}
  Passes stuck = Unit {0}

  on_error-Passes : (e : Error) (b : Buf) → Passes (on_error S e b)
  on_error-Passes (mqtt_error m) b = tt
  on_error-Passes (runtime_error m) b = tt
  on_error-Passes not_enough b = tt
  on_error-Passes out_of_range b = tt

  after_packet-Passes :
      (fh : FixedHeader) (r : Result (Option Packet) × Buf)
      → Returned S (Switched fh) r.0
      → Passes (after_packet S r)
  unfolding after_packet as_data
  after_packet-Passes fh (ok none, b) h = tt
  after_packet-Passes fh (ok (some p), b) h = (h.0 ∙ ap (λ f. f.packet_type) (sym h.1), h.2)
  after_packet-Passes fh (err e, b) h = on_error-Passes e b
  after_packet-Passes fh (stuck, b) h = tt

  after_header-Passes : (r : Result FixedHeader × Buf) → Passes (after_header S r)
  unfolding after_header
  after_header-Passes (ok fh, b) = elim (Bool-cases (ltb (size_call b) fh.remaining_length)) [
    | inl e ↦ rw e tt
    | inr e ↦ rw e (
        after_packet-Passes fh (run S (decode_packet fh) b)
          (Yields-run S (Switched fh) (decode_packet fh) b (decode_packet-Yields fh)))
  ]
  after_header-Passes (err e, b) = on_error-Passes e b
  after_header-Passes (stuck, b) = tt

  -- Whatever is handed to `channel_read`: if it passes a packet on, then this is an object of the class
  -- that its own packet type names, as the casts of the packet handler suppose; a PUBLISH has a QoS
  -- other than 3, no DUP at QoS 0, and a topic name that is not empty, has no wildcards and does not
  -- start with '$'; the will of a CONNECT has a QoS below 3, and the vectors of a SUBSCRIBE and of an
  -- UNSUBSCRIBE are equally long.
  pub channel_read_typed : (d : Data S) → Passes (codec_channel_read S d)
  unfolding codec_channel_read read_buffer
  channel_read_typed (buffer b) = elim (Bool-cases (ltb (size_call b) 2)) [
    | inl e ↦ rw e tt
    | inr e ↦ rw e (after_header-Passes (run S decode_fixed_header (mark b)))
  ]
  channel_read_typed (packet p) = tt
  channel_read_typed other = tt
