-- ===== src/Packet/Connect.antt =====
-- packet/mqtt_connect.cpp.
use Prim.Native.Nat.{bit_and, bit_or}
use shan_mqtt_broker.Base.{
  ℕ, ◌+◌, ◌*◌, ◌/◌, ◌%◌, ◌^◌, Bool, true, false, not, ◌&&◌, ◌||◌, List, [], ◌∷◌, ◌++◌, Bytes, ◌==◌,
  ltb, leb, length, if◌then◌else◌,
}
use shan_mqtt_broker.Constants.PacketType
use shan_mqtt_broker.Constants.{qos_invalid}
use shan_mqtt_broker.Outcome
use shan_mqtt_broker.Outcome.{Error, mqtt_error, Result, ok, err, stuck}
use shan_mqtt_broker.Wire.Decoder.{
  Decoder, ret, get_uint8, get_uint16, throw_if, ◌>>=◌, ◌>>◌, Write, write_uint8, write_uint16,
}
use shan_mqtt_broker.Packet.FixedHeader.{FixedHeader, make_fixed_header, serialize_fixed_header}
use shan_mqtt_broker.Packet.Text.{decode_string, encode_string, decode_binary, encode_binary}

-- The arguments of the second constructor, which are also members of the packet.
pub record ConnectFields : Type 0 where
  pub protocol_name : Bytes
  pub protocol_level : ℕ
  pub username_flag : Bool
  pub password_flag : Bool
  pub will_retain : Bool
  pub will_qos : ℕ
  pub will_flag : Bool
  pub clean_session : Bool
  pub keep_alive : ℕ
  pub client_id : Bytes
  pub will_topic : Bytes
  pub will_message : Bytes
  pub username : Bytes
  pub password : Bytes

pub record Connect : Type 0 where
  pub fh : FixedHeader
  pub connect_flags : ℕ
  pub fields : ConnectFields
  pub open fields use *

-- `(_connect_flags & mask) != 0`
abbrev pub has_flag : ℕ → ℕ → Bool
has_flag connect_flags mask = not (bit_and connect_flags mask == 0)

abbrev pub decode_if : Bool → Decoder Bytes → Decoder Bytes
decode_if true d = d
decode_if false d = ret []

-- `mqtt_connect(const fixed_header&, util::streambuf_ptr)`. A member that is not read stays empty.
unfoldable pub decode_connect : FixedHeader → Decoder Connect
unfolding decode_string decode_binary
decode_connect fh = do
  protocol_name ← decode_string
  protocol_level ← get_uint8
  connect_flags ← get_uint8
  let username_flag = has_flag connect_flags 0x80
  let password_flag = has_flag connect_flags 0x40
  let will_retain = has_flag connect_flags 0x20
  let will_qos = bit_and connect_flags 0x18 / 8
  let will_flag = has_flag connect_flags 0x04
  let clean_session = has_flag connect_flags 0x02
  throw_if (has_flag connect_flags 0x01)
      (mqtt_error "malformed packet received. (CONNECT - connect flags)")
  throw_if (not will_flag && (not (will_qos == 0) || will_retain)) (
      mqtt_error
        "malformed packet received. (CONNECT - connect flags - will flag, will qos, will_retain)")
  throw_if (leb qos_invalid will_qos)
      (mqtt_error "malformed packet received. (CONNECT - connect flags - will QoS)")
  keep_alive ← get_uint16
  client_id ← decode_string
  will_topic ← decode_if will_flag decode_string
  will_message ← decode_if will_flag decode_binary
  username ← decode_if username_flag decode_string
  password ← decode_if password_flag decode_binary
  ret (record {
    fh = fh;
    connect_flags = connect_flags;
    fields = record {
      protocol_name = protocol_name;
      protocol_level = protocol_level;
      username_flag = username_flag;
      password_flag = password_flag;
      will_retain = will_retain;
      will_qos = will_qos;
      will_flag = will_flag;
      clean_session = clean_session;
      keep_alive = keep_alive;
      client_id = client_id;
      will_topic = will_topic;
      will_message = will_message;
      username = username;
      password = password;
    };
  })

abbrev mask_if : Bool → ℕ → ℕ
mask_if b mask = if b then mask else 0

abbrev pub length_if : Bool → ℕ → ℕ
length_if b n = if b then 2 + n else 0

-- The flags that the second constructor collects: the will flag is not among them.
unfoldable pub collect_flags : ConnectFields → ℕ
collect_flags c =
    bit_or
      (bit_or
        (bit_or (bit_or (bit_or 0 (mask_if c.username_flag 0x80)) (mask_if c.password_flag 0x40))
          (mask_if c.will_retain 0x20))
        (bit_and (c.will_qos * 8) 0x18))
      (mask_if c.clean_session 0x02)

unfoldable pub connect_length : ConnectFields → ℕ
connect_length c =
    (length c.protocol_name
      + 2
      + 1
      + 1
      + 2
      + (2 + length c.client_id)
      + (length_if c.will_flag (length c.will_topic)
          + length_if c.will_flag (length c.will_message))
      + length_if c.username_flag (length c.username)
      + length_if c.password_flag (length c.password))
    % 2 ^ 32

-- `mqtt_connect(std::string protocol_name, …)`
unfoldable pub make_connect : ConnectFields → Result Connect
unfolding make_fixed_header collect_flags connect_length
make_connect c = Outcome.◌>>=◌ (make_fixed_header PacketType.connect 0 0) λ fh.
    Outcome.◌>>◌
      (Outcome.throw_if (not c.will_flag && (not (c.will_qos == 0) || c.will_retain)) (
        mqtt_error
          "malformed packet. (CONNECT - connect flags - will flag, will qos, will_retain)"))
      (Outcome.◌>>◌
        (Outcome.throw_if (leb qos_invalid c.will_qos)
          (mqtt_error "malformed packet. (CONNECT - connect flags - will QoS)"))
        (ok (record {
          fh = record fh { remaining_length = connect_length c };
          connect_flags = collect_flags c;
          fields = c;
        })))

abbrev pub encode_if : Bool → Result (List Write) → Result (List Write)
encode_if true ws = ws
encode_if false ws = ok []

-- `mqtt_connect::serialize`
unfoldable pub serialize_connect : Connect → Result (List Write)
unfolding serialize_fixed_header encode_string encode_binary
serialize_connect p = Outcome.◌>>=◌ (serialize_fixed_header p.fh) λ header.
    Outcome.◌>>=◌ (encode_string p.protocol_name) λ name.
      Outcome.◌>>=◌ (encode_string p.client_id) λ id.
        Outcome.◌>>=◌ (encode_if p.will_flag (encode_string p.will_topic)) λ will_topic.
          Outcome.◌>>=◌ (encode_if p.will_flag (encode_binary p.will_message)) λ will_message.
            Outcome.◌>>=◌ (encode_if p.username_flag (encode_string p.username)) λ username.
              Outcome.◌>>=◌ (encode_if p.password_flag (encode_binary p.password)) λ password. ok (
                header
                ++ (name
                    ++ (write_uint8 p.protocol_level
                        ∷ (write_uint8 p.connect_flags
                            ∷ (write_uint16 p.keep_alive
                                ∷ (id
                                    ++ (will_topic
                                        ++ (will_message ++ (username ++ password)))))))))

-- `std::isalnum`, in the C locale
abbrev pub is_alnum : ℕ → Bool
is_alnum ch =
    (leb b'0' ch && leb ch b'9') || ((leb b'A' ch && leb ch b'Z') || (leb b'a' ch && leb ch b'z'))

abbrev pub all_alnum : Bytes → Bool
all_alnum [] = true
all_alnum (ch ∷ s) = is_alnum ch && all_alnum s

-- `if (!_username_flag && _password_flag) return 0x04; return 0x00;`
abbrev pub check_credentials : Connect → ℕ
check_credentials p = if not p.username_flag && p.password_flag then 0x04 else 0x00

-- `_client_id = generator->generate_unique_id();` and what follows.
abbrev pub check_generated : {S : Type 0} → Connect → Result Bytes × S → Result (ℕ × Connect) × S
check_generated p (ok id, s) =
    (ok (check_credentials p, record p { fields = record (p.fields) { client_id = id } }), s)
check_generated p (err e, s) = (err e, s)
check_generated p (stuck, s) = (stuck, s)

-- `mqtt_connect::check_integrity`. The generator is called, and may change its own state `S`, where
-- the client id is empty; the packet then has the generated id.
unfoldable pub check_integrity :
    {S : Type 0} → (S → Result Bytes × S) → Connect → S → Result (ℕ × Connect) × S
check_integrity generator p s =
    if not (p.protocol_level == 4)
    then (ok (0x01, p), s)
    else (if ltb 23 (length p.client_id)
        then (ok (0x02, p), s)
        else (if not (all_alnum p.client_id)
            then (ok (0x02, p), s)
            else (if length p.client_id == 0
                then (if not p.clean_session
                    then (ok (0x02, p), s)
                    else check_generated p (generator s))
                else (ok (check_credentials p, p), s))))
