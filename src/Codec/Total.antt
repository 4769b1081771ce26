-- ===== src/Codec/Total.antt =====
-- `mqtt_codec::channel_read` (handler/mqtt_codec.cpp) returns or throws on any bytes at all.
use shan_mqtt_broker.Base.{refl, inr, Option, inl, Bool-cases, ltb, ◌≢◌}
use shan_mqtt_broker.Outcome.{
  mqtt_error, runtime_error, not_enough, out_of_range, Error, Result, ok, err, stuck,
}
use shan_mqtt_broker.Wire.Buffer.{StreamBuf, run}
use shan_mqtt_broker.Wire.Ends.{Ends-run}
use shan_mqtt_broker.Packet.FixedHeader.{FixedHeader, decode_fixed_header}
use shan_mqtt_broker.Packet.Any.{Packet, decode_packet}
use shan_mqtt_broker.Packet.Ending.{decode_fixed_header-Ends}
use shan_mqtt_broker.Packet.Switch.{decode_packet-Ends}
use shan_mqtt_broker.Codec.{
  runtime_error, Data, buffer, packet, other, codec_channel_read, after_packet, after_header,
  read_buffer, on_error,
}

module _ (S : StreamBuf) where
  open S use {Buf, mark, size_call}

  on_error-returns : (e : Error) (b : Buf) → on_error S e b ≢ stuck
  on_error-returns (mqtt_error m) b h = cc
  on_error-returns (runtime_error m) b h = cc
  on_error-returns not_enough b h = cc
  on_error-returns out_of_range b h = cc

  after_packet-returns : (r : Result (Option Packet) × Buf) → r.0 ≢ stuck → after_packet S r ≢ stuck
  unfolding after_packet
  after_packet-returns (ok p, b) n h = cc
  after_packet-returns (err e, b) n h = on_error-returns e b h
  after_packet-returns (stuck, b) n h = n refl

  after_header-returns : (r : Result FixedHeader × Buf) → r.0 ≢ stuck → after_header S r ≢ stuck
  unfolding after_header
  after_header-returns (ok fh, b) n = elim (Bool-cases (ltb (size_call b) fh.remaining_length)) [
    | inl e ↦ rw e (λ h. cc)
    | inr e ↦ rw e (
        after_packet-returns (run S (decode_packet fh) b)
          (Ends-run S (decode_packet fh) b (decode_packet-Ends fh)))
  ]
  after_header-returns (err e, b) n = on_error-returns e b
  after_header-returns (stuck, b) n = λ h. n refl

  read_buffer-returns : (b : Buf) → read_buffer S b ≢ stuck
  unfolding read_buffer
  read_buffer-returns b = elim (Bool-cases (ltb (size_call b) 2)) [
    | inl e ↦ rw e (λ h. cc)
    | inr e ↦ rw e (
        after_header-returns (run S decode_fixed_header (mark b))
          (Ends-run S decode_fixed_header (mark b) decode_fixed_header-Ends))
  ]

  -- Whatever is handed to `channel_read`, and whatever bytes the buffer holds, it returns or throws:
  -- none of the loops of the header, the strings and the packets runs out of its fuel.
  pub channel_read_returns : (d : Data S) → codec_channel_read S d ≢ stuck
  unfolding codec_channel_read
  channel_read_returns (buffer b) = read_buffer-returns b
  channel_read_returns (packet p) = λ h. cc
  channel_read_returns other = λ h. cc
