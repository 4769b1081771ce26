-- ===== src/Constants.antt =====
-- constants.h.
pub mod PacketType
use shan_mqtt_broker.Base.{ℕ}

-- `enum qos : uint8_t`
abbrev pub qos_at_least_once : ℕ
qos_at_least_once = 1

abbrev pub qos_exactly_once : ℕ
qos_exactly_once = 2

abbrev pub qos_invalid : ℕ
qos_invalid = 3

-- `enum timer_id`
abbrev pub id_client_idle : ℕ
id_client_idle = 2

abbrev pub id_client_disconnected : ℕ
id_client_disconnected = 3

abbrev pub id_no_connect : ℕ
id_no_connect = 1
