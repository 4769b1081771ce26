-- ===== src/Topic.antt =====
-- object/topic.cpp and packet/mqtt_subscribe.cpp: topic filters and topic names.
pub mod Filter
pub mod Levels
pub mod Validity
pub mod Matching
pub mod Trailing
