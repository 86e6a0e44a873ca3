-- ===== src/Orchestrator/Store/Deliveries.antt =====
-- Notification channels and deliveries of the orchestrator's store (services/orchestrator/src/
-- repository.ts).
use nexus_infra.Prelude.{
  ℕ, ◌+◌, String, Bool, true, false, not, ◌&&◌, ◌||◌, Option, none, some, List, [], ◌∷◌,
  if◌then◌else◌, leb, ◌==◌, str_eq, or_else, any, filter, reverse, sort_by, first_of,
}
use nexus_infra.Prelude.Assoc.{Assoc, lookup, insert, erase, values, drop_where}
use nexus_infra.Orchestrator.Store.Rows.{
  NotificationChannelRecord, NotificationDeliveryRecord, DeliveryStatus, pending, sent, failed,
  Store,
}

pub record CreateChannelInput : Type 0 where
  pub user_id : String
  pub kind : String
  pub target : String
  pub format : String
  pub events : List String
  pub secret : Option String
  pub allow_private : Bool
  pub enabled : Bool

pub record ChannelPatch : Type 0 where
  pub events : Option (List String)
  pub enabled : Option Bool
  pub last_delivery_at : Option (Option ℕ)
  pub last_error : Option (Option String)

pub record DeliveryPatch : Type 0 where
  pub status : Option DeliveryStatus
  pub attempts : Option ℕ
  pub next_attempt_at : Option ℕ
  pub last_error : Option (Option String)
  pub sent_at : Option (Option ℕ)

pub record DeliveryRow : Type 0 where
  pub channel_id : String
  pub event : String
  pub payload : String

unfoldable pub create_notification_channel :
    String → ℕ → CreateChannelInput → Store → Store × NotificationChannelRecord
create_notification_channel id now input s =
    let c : NotificationChannelRecord = record {
      id = id;
      user_id = input.user_id;
      kind = input.kind;
      target = input.target;
      format = input.format;
      events = input.events;
      secret = input.secret;
      allow_private = input.allow_private;
      enabled = input.enabled;
      last_delivery_at = none;
      last_error = none;
      created_at = now;
    } in
    (record s { channels = insert id c s.channels }, c)

unfoldable pub list_notification_channels : List String → Store → List NotificationChannelRecord
list_notification_channels user_ids s =
    filter (λ c. any (λ id. str_eq id c.user_id) user_ids) (values s.channels)

unfoldable pub get_notification_channel : String → Store → Option NotificationChannelRecord
get_notification_channel id s = lookup id s.channels

unfoldable pub patch_channel : ChannelPatch → NotificationChannelRecord → NotificationChannelRecord
patch_channel patch c = record c {
  events = or_else patch.events c.events;
  enabled = or_else patch.enabled c.enabled;
  last_delivery_at = or_else patch.last_delivery_at c.last_delivery_at;
  last_error = or_else patch.last_error c.last_error;
}

unfoldable pub update_notification_channel :
    String → ChannelPatch → Store → Store × Option NotificationChannelRecord
update_notification_channel id patch s = elim (lookup id s.channels) [
  | none ↦ (s, none)
  | some c ↦ (
    record s { channels = insert id (patch_channel patch c) s.channels },
    some (patch_channel patch c),
  )
]

unfoldable pub delete_notification_channel : String → Store → Store
delete_notification_channel id s = record s {
  channels = erase id s.channels;
  deliveries = drop_where (λ d. str_eq d.channel_id id) s.deliveries;
}

unfoldable pub new_delivery : String → ℕ → DeliveryRow → NotificationDeliveryRecord
new_delivery id now row = record {
  id = id;
  channel_id = row.channel_id;
  event = row.event;
  payload = row.payload;
  status = pending;
  attempts = 0;
  next_attempt_at = now;
  last_error = none;
  created_at = now;
  sent_at = none;
}

-- Each row comes with its random id.
unfoldable pub add_deliveries :
    ℕ
    → List (String × DeliveryRow)
    → Assoc NotificationDeliveryRecord
    → Assoc NotificationDeliveryRecord × List NotificationDeliveryRecord
add_deliveries now [] m = (m, [])
add_deliveries now ((id, row) ∷ rows) m =
    let (later, made) = add_deliveries now rows (insert id (new_delivery id now row) m) in
    (later, new_delivery id now row ∷ made)

unfoldable pub enqueue_deliveries :
    ℕ → List (String × DeliveryRow) → Store → Store × List NotificationDeliveryRecord
enqueue_deliveries now rows s =
    let (deliveries, made) = add_deliveries now rows s.deliveries in
    (record s { deliveries = deliveries }, made)

unfoldable pub is_pending : DeliveryStatus → Bool
is_pending pending = true
is_pending sent = false
is_pending failed = false

unfoldable pub list_due_deliveries : ℕ → ℕ → Store → List NotificationDeliveryRecord
list_due_deliveries now limit s = first_of limit (
    sort_by (λ a b. leb a.next_attempt_at b.next_attempt_at)
      (filter (λ d. is_pending d.status && leb d.next_attempt_at now) (values s.deliveries)))

unfoldable pub claim_delivery : String → ℕ → Store → Store × Bool
claim_delivery id attempts s = elim (lookup id s.deliveries) [
  | none ↦ (s, false)
  | some d ↦ if not (is_pending d.status) || not (d.attempts == attempts) then (s, false) else (
    record s { deliveries = insert id (record d { attempts = attempts + 1 }) s.deliveries },
    true,
  )
]

unfoldable pub patch_delivery :
    DeliveryPatch → NotificationDeliveryRecord → NotificationDeliveryRecord
patch_delivery patch d = record d {
  status = or_else patch.status d.status;
  attempts = or_else patch.attempts d.attempts;
  next_attempt_at = or_else patch.next_attempt_at d.next_attempt_at;
  last_error = or_else patch.last_error d.last_error;
  sent_at = or_else patch.sent_at d.sent_at;
}

unfoldable pub update_delivery : String → DeliveryPatch → Store → Store
update_delivery id patch s = elim (lookup id s.deliveries) [
  | none ↦ s
  | some d ↦ record s { deliveries = insert id (patch_delivery patch d) s.deliveries }
]

unfoldable pub list_deliveries : String → ℕ → Store → List NotificationDeliveryRecord
list_deliveries channel_id limit s = first_of limit (
    sort_by (λ a b. leb b.created_at a.created_at)
      (filter (λ d. str_eq d.channel_id channel_id) (reverse (values s.deliveries))))
