-- ===== src/Plugins/Kafka.antt =====
-- src/services/kafka/producer.go. What `getConfig` answers is an argument, `none` its nil; the
-- producer of the Kafka library is known by the messages that it is given.
use wing_binlog_go.Prelude.{
  Bool, true, false, not, Option, none, some, List, [], ◌∷◌, ◌++◌, Outcome, ok, panic, Bytes,
  if◌then◌else◌,
}
use wing_binlog_go.Wire.Filter.{match_filters}

pub record KafkaConfig : Type 0 where
  pub config_enable : Bool
  pub config_topic : Bytes
  pub config_filter : List Bytes

-- A `sarama.ProducerMessage`: topic, key and value.
pub record ProducerMessage : Type 0 where
  pub to_topic : Bytes
  pub key : Bytes
  pub value : Bytes

-- `Producer`: whether its producer and its lock are there, and what went into the producer.
pub record Producer : Type 0 where
  pub has_producer : Bool
  pub enable : Bool
  pub topic : Bytes
  pub filter : List Bytes
  pub is_close : Bool
  pub has_lock : Bool
  pub input : List ProducerMessage

-- `NewProducer`
unfoldable pub new_producer : Option KafkaConfig → Outcome Producer
new_producer none = panic
new_producer (some c) = ok (record {
  has_producer = c.config_enable;
  enable = c.config_enable;
  topic = if c.config_enable then c.config_topic else [];
  filter = if c.config_enable then c.config_filter else [];
  is_close = false;
  has_lock = c.config_enable;
  input = [];
})

-- `SendAll`
unfoldable pub send_all :
    (Bytes → Bytes → Option Bool) → Bytes → Bytes → Producer → Outcome (Bool × Producer)
send_all match_string table msg r =
    if not r.enable
    then ok (false, r)
    else if not r.has_lock
    then panic
    else if r.is_close
    then ok (false, r)
    else if not (match_filters match_string r.filter table)
    then ok (false, r)
    else ok (
      true,
      record r {
        input = r.input ++ (record { to_topic = r.topic; key = table; value = msg }) ∷ [];
      },
    )

-- `Close`
unfoldable pub close : Producer → Outcome Producer
close r =
    if not r.enable
    then ok r
    else if not r.has_lock
    then panic
    else ok (record r { is_close = true })

-- `Reload`
unfoldable pub reload : Option KafkaConfig → Producer → Outcome Producer
reload none r = panic
reload (some c) r = ok (record r {
  has_producer = true;
  enable = true;
  topic = c.config_topic;
  filter = c.config_filter;
})
