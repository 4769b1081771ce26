-- ===== src/Codec.antt =====
-- handler/mqtt_codec.cpp: between the stream buffer and the packets.
pub mod RoundTrip
pub mod Partial
pub mod Total
pub mod Typed
use shan_mqtt_broker.Base.{Bool, true, false, Option, none, some, ltb, if◌then◌else◌}
use shan_mqtt_broker.Outcome.{Error, runtime_error, not_enough, Result, ok, err, stuck, ◌>>=◌}
use shan_mqtt_broker.Wire.Buffer.{StreamBuf, run, write_all}
use shan_mqtt_broker.Packet.FixedHeader.{FixedHeader, decode_fixed_header}
use shan_mqtt_broker.Packet.Any.{Packet, decode_packet, serialize}

module _ (S : StreamBuf) where
  open S use {Buf, size_call, mark, reset}

  -- The `data` that the handlers of a channel pass on: an object that is a stream buffer, a packet,
  -- or of no class that they know.
  pub data Data : Type 0 where
    buffer : Buf → Data
    packet : Packet → Data
    other : Data

  -- `data` as the handler leaves it, the buffer that it read from, and whether it called
  -- `ctx->done(true)`.
  pub record Read : Type 0 where
    pub passed : Data
    pub left : Buf
    pub is_done : Bool

  pub as_data : Option Packet → Buf → Data
  as_data none b = buffer b
  as_data (some p) b = packet p

  -- The `catch` clause, and the exceptions that it does not catch.
  abbrev pub on_error : Error → Buf → Result Read
  on_error not_enough b = ok (record { passed = buffer (reset b); left = reset b; is_done = false })
  on_error e b = err e

  pub after_packet : Result (Option Packet) × Buf → Result Read
  unfolding as_data
  after_packet (ok p, b) = ok (record { passed = as_data p b; left = b; is_done = false })
  after_packet (err e, b) = on_error e b
  after_packet (stuck, b) = stuck

  pub after_header : Result FixedHeader × Buf → Result Read
  unfolding after_packet
  after_header (ok fh, b) =
      if ltb (size_call b) fh.remaining_length
      then ok (record { passed = buffer (reset b); left = reset b; is_done = true })
      else after_packet (run S (decode_packet fh) b)
  after_header (err e, b) = on_error e b
  after_header (stuck, b) = stuck

  pub read_buffer : Buf → Result Read
  unfolding after_header
  read_buffer b =
      if ltb (size_call b) 2
      then ok (record { passed = buffer b; left = b; is_done = true })
      else after_header (run S decode_fixed_header (mark b))

  -- `mqtt_codec::channel_read`
  unfoldable pub codec_channel_read : Data → Result Read
  unfolding read_buffer
  codec_channel_read (buffer b) = read_buffer b
  codec_channel_read d =
      err (runtime_error "the parameter of channel_read() is not a streambuf object.")

  -- `mqtt_codec::channel_write`; `empty` is the new buffer, `make_shared<util::streambuf>(…)`.
  unfoldable pub codec_channel_write : Buf → Data → Result Data
  codec_channel_write empty (packet p) = serialize p >>= λ ws. ok (buffer (write_all S ws empty))
  codec_channel_write empty d =
      err (runtime_error "the parameter of channel_write() is not a mqtt packet object.")
