-- ===== src/Packet/ConnectBytes.antt =====
-- Reading the bytes of a CONNECT without a will behind its fixed header (packet/mqtt_connect.cpp).
use Prim.Native.Nat.{bit_and, bit_or}
use shan_mqtt_broker.Base.{
  ℕ, ◌+◌, ◌*◌, ◌/◌, ◌%◌, ◌≤◌, ◌≡◌, refl, ap, ◌∙◌, Bool, true, false, Option, some, none, is_some,
  List, [], ◌∷◌, ◌++◌, Bytes, length, ltb, leb, append-nil, arith, if◌then◌else◌, not, ◌&&◌, ◌||◌,
  ◌==◌,
}
use shan_mqtt_broker.Constants.{qos_invalid}
use shan_mqtt_broker.Outcome.{Error, mqtt_error, ok}
use shan_mqtt_broker.Wire.Decoder.{
  run_bytes, written, Write, write, write_uint16, ◌>>=◌, ret, Decoder, get_uint16, take, drop,
  throw_if,
}
use shan_mqtt_broker.Wire.Bind.{run_ok, run_passed}
use shan_mqtt_broker.Packet.AckTrip.{uint16_bytes}
use shan_mqtt_broker.Packet.PublishBytes.{take_front, drop_front}
use shan_mqtt_broker.Packet.FixedHeader.{FixedHeader}
use shan_mqtt_broker.Packet.Text.{decode_string, decode_binary}
use shan_mqtt_broker.Packet.Utf8.{Utf8, string_read}
use shan_mqtt_broker.Packet.Connect.{Connect, ConnectFields, has_flag, decode_if, decode_connect}

pub record IsText (s : Bytes) : Type 0 where
  pub text : Utf8 s
  pub short : length s ≤ 0xffff

abbrev pub bytes_of : Option Bytes → Bytes
bytes_of (some s) = s
bytes_of none = []

-- The members of a CONNECT without a will; user name and password may be missing.
abbrev pub fields_of : Bytes → ℕ → ℕ → Bytes → Bool → Option Bytes → Option Bytes → ConnectFields
fields_of name level keep_alive id clean user password = record {
  protocol_name = name;
  protocol_level = level;
  username_flag = is_some user;
  password_flag = is_some password;
  will_retain = false;
  will_qos = 0;
  will_flag = false;
  clean_session = clean;
  keep_alive = keep_alive;
  client_id = id;
  will_topic = [];
  will_message = [];
  username = bytes_of user;
  password = bytes_of password;
}

abbrev pub flags_of : Bool → Bool → Bool → ℕ
flags_of user password clean =
    bit_or
      (bit_or
        (bit_or (bit_or (bit_or 0 (if user then 0x80 else 0)) (if password then 0x40 else 0)) 0)
        (bit_and 0 0x18))
      (if clean then 0x02 else 0)

-- What `decode_connect` reads behind the flags.
abbrev decode_behind :
    FixedHeader → Bytes → ℕ → ℕ → Bool → Bool → Bool → Bool → ℕ → Bool → Decoder Connect
decode_behind fh name level flags user password clean will_retain will_qos will_flag = do
  keep_alive ← get_uint16
  id ← decode_string
  will_topic ← decode_if will_flag decode_string
  will_message ← decode_if will_flag decode_binary
  u ← decode_if user decode_string
  p ← decode_if password decode_binary
  ret (record {
    fh = fh;
    connect_flags = flags;
    fields = record {
      protocol_name = name;
      protocol_level = level;
      username_flag = user;
      password_flag = password;
      will_retain = will_retain;
      will_qos = will_qos;
      will_flag = will_flag;
      clean_session = clean;
      keep_alive = keep_alive;
      client_id = id;
      will_topic = will_topic;
      will_message = will_message;
      username = u;
      password = p;
    };
  })

-- The same without a will.
abbrev pub decode_rest : FixedHeader → Bytes → ℕ → ℕ → Bool → Bool → Bool → Decoder Connect
decode_rest fh name level flags user password clean =
    decode_behind fh name level flags user password clean false 0 false

behind :
    (fh : FixedHeader) (name : Bytes) (level flags : ℕ) (rest : Bytes)
    {u u' p p' c c' r r' w w' : Bool} {q q' : ℕ}
    → u ≡ u'
    → p ≡ p'
    → c ≡ c'
    → r ≡ r'
    → q ≡ q'
    → w ≡ w'
    → run_bytes (decode_behind fh name level flags u p c r q w) rest
      ≡ run_bytes (decode_behind fh name level flags u' p' c' r' q' w') rest
behind fh name level flags rest eu ep ec er eq ew = λ i.
    run_bytes (decode_behind fh name level flags (eu i) (ep i) (ec i) (er i) (eq i) (ew i)) rest

-- The flags read as what they were set to, and nothing of a will.
abbrev pub FlagsRead : Bool → Bool → Bool → ℕ → Type 0
FlagsRead user password clean flags =
    (has_flag flags 0x80 ≡ user)
    × (has_flag flags 0x40 ≡ password)
    × (has_flag flags 0x02 ≡ clean)
    × (has_flag flags 0x20 ≡ false)
    × (bit_and flags 0x18 ≡ 0)
    × (has_flag flags 0x04 ≡ false)
    × (has_flag flags 0x01 ≡ false)

pub flags_read :
    (user password clean : Bool) → FlagsRead user password clean (flags_of user password clean)
flags_read true true true = (refl, refl, refl, refl, refl, refl, refl)
flags_read true true false = (refl, refl, refl, refl, refl, refl, refl)
flags_read true false true = (refl, refl, refl, refl, refl, refl, refl)
flags_read true false false = (refl, refl, refl, refl, refl, refl, refl)
flags_read false true true = (refl, refl, refl, refl, refl, refl, refl)
flags_read false true false = (refl, refl, refl, refl, refl, refl, refl)
flags_read false false true = (refl, refl, refl, refl, refl, refl, refl)
flags_read false false false = (refl, refl, refl, refl, refl, refl, refl)

pub flags_passed :
    (fh : FixedHeader) (name : Bytes) (level flags : ℕ) (user password clean : Bool) (rest : Bytes)
    → IsText name
    → FlagsRead user password clean flags
    → run_bytes
        (decode_connect fh)
        (length name / 256 ∷ (length name % 256 ∷ (name ++ (level ∷ (flags ∷ rest)))))
      ≡ run_bytes (decode_rest fh name level flags user password clean) rest
unfolding decode_connect
flags_passed fh name level flags user password clean rest h r =
    let (eu, ep, ec, er, eq, ew, e0) = r in
    run_ok decode_string _
      (length name / 256 ∷ (length name % 256 ∷ (name ++ (level ∷ (flags ∷ rest)))))
      (string_read name (level ∷ (flags ∷ rest)) h.text h.short)
    ∙ run_passed (has_flag flags 0x01) _ _ rest e0
    ∙ run_passed
        (not (has_flag flags 0x04) && (not (bit_and flags 0x18 / 8 == 0) || has_flag flags 0x20)) _
        _ rest (rw (ew, eq, er) refl)
    ∙ run_passed (leb qos_invalid (bit_and flags 0x18 / 8)) _ _ rest (rw eq refl)
    ∙ behind fh name level flags rest eu ep ec er (ap (λ q. q / 8) eq) ew

abbrev short_binary : Error
short_binary = mqtt_error "not enough data. (decode_binary)"

binary_read :
    (s rest : Bytes)
    → length s ≤ 0xffff
    → run_bytes decode_binary (length s / 256 ∷ (length s % 256 ∷ (s ++ rest))) ≡ ok (s, rest)
unfolding decode_binary
binary_read s rest h =
    let n : length s / 256 * 256 + length s % 256 ≡ length s = uint16_bytes (length s) in
    let whole : ltb (length s) (length s) ≡ false = ground arith in
    ap
      (λ m.
        run_bytes
          (throw_if (ltb (length (take m (s ++ rest))) m) short_binary >>= λ _.
            ret (take m (s ++ rest)))
          (drop m (s ++ rest)))
      n
    ∙ rw (take_front s rest, drop_front s rest, whole) refl

abbrev pub given_writes : Option Bytes → List Write
given_writes (some s) = write_uint16 (length s) ∷ (write s ∷ [])
given_writes none = []

abbrev pub IsGiven : (Bytes → Type 0) → Option Bytes → Type 0
IsGiven P (some s) = P s
IsGiven P none = Unit {0}

pub user_read :
    (user : Option Bytes) (rest : Bytes)
    → IsGiven IsText user
    → run_bytes (decode_if (is_some user) decode_string) (written (given_writes user) ++ rest)
      ≡ ok (bytes_of user, rest)
user_read (some s) rest h = rw append-nil (string_read s rest h.text h.short)
user_read none rest h = refl

pub password_read :
    (password : Option Bytes) (rest : Bytes)
    → IsGiven (λ s. length s ≤ 0xffff) password
    → run_bytes
        (decode_if (is_some password) decode_binary)
        (written (given_writes password) ++ rest)
      ≡ ok (bytes_of password, rest)
password_read (some s) rest h = rw append-nil (binary_read s rest h)
password_read none rest h = refl
