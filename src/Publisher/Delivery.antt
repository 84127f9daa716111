-- ===== src/Publisher/Delivery.antt =====
-- fastapi_app/rmq/publisher.py and fastapi_app/rmq/consumer.py together: what the consumer makes of
-- a message that `publish` has handed to the exchange.
use fastapi_project.Prelude.{String, ◌≡◌, none, arith}
use fastapi_project.Python.{returned}
use fastapi_project.Dict
use fastapi_project.Dict.{Dict}
use fastapi_project.Json.{Json}
use fastapi_project.Publisher.{Library, PublisherState, Message, message_body, publish}

-- A message that went out with no routing key given holds the JSON of the body, has the event type
-- as its routing key, and went to the configured exchange.
pub publish_sends :
    {Bytes : Type 0} (lib : Library) (exchange : String) (dumps : Dict Json → Bytes)
    (event_type now : String) (payload : Dict Json) (s : PublisherState) (m : Message Bytes)
    → (publish lib exchange dumps event_type now payload none s).0 ≡ returned m
    → (m.body ≡ dumps (message_body event_type now payload))
      × (m.routing_key ≡ event_type)
      × (m.exchange ≡ exchange)
unfolding publish
publish_sends lib exchange dumps event_type now payload s m h = ground arith
