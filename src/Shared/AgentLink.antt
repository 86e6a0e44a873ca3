-- ===== src/Shared/AgentLink.antt =====
-- The agent link (shared/src/agentLink.ts): byte streams over one WebSocket. A Buffer is the list of
-- its bytes; `utf8` and `text` are `Buffer.from(s, 'utf8')` and `buffer.toString('utf8')`.
pub mod Codec
pub mod Ids
pub mod Answers
pub mod Effects
pub mod Demux
pub mod Ended
pub mod Others
pub mod Reading
pub mod Delivery
pub mod Tests
use nexus_infra.Prelude.{
  ℕ, zero, suc, ◌+◌, ◌*◌, ◌/◌, ◌%◌, ◌-◌, String, Bool, true, false, not, ◌&&◌, ◌||◌, Option, none,
  some, List, [], ◌∷◌, ◌++◌, map, if◌then◌else◌, leb, ltb, ◌==◌, length, str_eq,
}
use nexus_infra.Prelude.Table.{Table, get, has, remove, put, set_at}

pub data FrameType : Type 0 where
  frame_open : FrameType
  frame_data : FrameType
  frame_end : FrameType
  frame_reset : FrameType

-- The byte of a type of frame.
unfoldable pub frame_byte : FrameType → ℕ
frame_byte frame_open = 1
frame_byte frame_data = 2
frame_byte frame_end = 3
frame_byte frame_reset = 4

unfoldable pub frame_type : ℕ → Option FrameType
frame_type byte =
    if byte == 1
    then some frame_open
    else if byte == 2
    then some frame_data
    else if byte == 3
    then some frame_end
    else if byte == 4
    then some frame_reset
    else none

abbrev pub max_reason_bytes : ℕ
max_reason_bytes = 200

pub record Frame : Type 0 where
  pub kind : FrameType
  pub stream_id : ℕ
  pub payload : List ℕ

unfoldable pub encode_frame : FrameType → ℕ → List ℕ → List ℕ
encode_frame kind stream_id payload =
    let id = stream_id % 4294967296 in
    frame_byte kind ∷ id / 16777216 ∷ (id / 65536 % 256) ∷ (id / 256 % 256) ∷ (id % 256) ∷ payload

unfoldable pub decode_frame : List ℕ → Option Frame
decode_frame (kind ∷ a ∷ b ∷ c ∷ d ∷ payload) = elim (frame_type kind) [
  | none ↦ none
  | some t ↦
      some
        (record { kind = t; stream_id = 16777216 * a + 65536 * b + 256 * c + d; payload = payload })
]
decode_frame short = none

-- `payload.subarray(0, count)`
unfoldable pub first_bytes : ℕ → List ℕ → List ℕ
first_bytes zero bytes = []
first_bytes (suc count) [] = []
first_bytes (suc count) (b ∷ bytes) = b ∷ first_bytes count bytes

-- A LinkStream: its own flags, and of its `Duplex` the chunks that were pushed to the reader,
-- whether the end was, and the error that it was destroyed with.
pub record LinkStream : Type 0 where
  pub stream_id : ℕ
  pub remote_ended : Bool
  pub local_ended : Bool
  pub was_reset : Bool
  pub pushed : List (List ℕ)
  pub destroyed : Bool
  pub error : Option String

unfoldable pub new_stream : ℕ → LinkStream
new_stream id = record {
  stream_id = id;
  remote_ended = false;
  local_ended = false;
  was_reset = false;
  pushed = [];
  destroyed = false;
  error = none;
}

-- A LinkSession. `objects` are the streams by a handle, those that the session forgot included;
-- `made` counts them; `accepts` says that `onOpen` was given, and `opened` are the handles that it
-- was called with; `sent` are the messages handed to the socket and not yet delivered, oldest first.
pub record LinkSession : Type 0 where
  pub streams : Table ℕ
  pub next_id : ℕ
  pub closed : Bool
  pub accepts : Bool
  pub objects : ℕ → LinkStream
  pub made : ℕ
  pub opened : List ℕ
  pub sent : List (List ℕ)

unfoldable pub new_session : Bool → LinkSession
new_session accepts = record {
  streams = [];
  next_id = 1;
  closed = false;
  accepts = accepts;
  objects = new_stream;
  made = 0;
  opened = [];
  sent = [];
}

unfoldable pub session_size : LinkSession → ℕ
session_size s = length s.streams

unfoldable pub send : List ℕ → LinkSession → LinkSession
send frame s = if s.closed then s else record s { sent = s.sent ++ frame ∷ [] }

unfoldable pub forget : ℕ → LinkSession → LinkSession
forget id s = record s { streams = remove id s.streams }

unfoldable pub modify : ℕ → (LinkStream → LinkStream) → LinkSession → LinkSession
modify handle change s = record s { objects = set_at handle (change (s.objects handle)) s.objects }

unfoldable pub next_after : ℕ → ℕ
next_after id = if leb 4294967295 id then 1 else suc id

-- The loop of `allocateId`; the result is the id and the next one.
unfoldable pub allocate_loop : ℕ → ℕ → Table ℕ → Option (ℕ × ℕ)
allocate_loop zero id streams = none
allocate_loop (suc fuel) id streams =
    let again = allocate_loop fuel (next_after id) streams in
    if has id streams then again else some (id, next_after id)

unfoldable pub allocate_id : LinkSession → Option (ℕ × ℕ)
allocate_id s = allocate_loop (suc (length s.streams)) s.next_id s.streams

-- A new stream under an id, and its handle.
unfoldable pub add_stream : ℕ → LinkSession → LinkSession × ℕ
add_stream id s = (
  record s {
    streams = put id s.made s.streams;
    objects = set_at s.made (new_stream id) s.objects;
    made = suc s.made;
  },
  s.made,
)

-- `none` is the exception that a closed link throws.
unfoldable pub open_stream : LinkSession → Option (LinkSession × ℕ)
open_stream s = if s.closed then none else elim (allocate_id s) [
  | none ↦ none
  | some (id, next) ↦
      let (s', handle) = add_stream id (record s { next_id = next }) in
      some (send (encode_frame frame_open id []) s', handle)
]

-- `pushed` is what `push` is called with; Node leaves an empty chunk out of what is read.
unfoldable pub remote_data : ℕ → List ℕ → LinkSession → LinkSession
remote_data handle payload s =
    if (s.objects handle).remote_ended
    then s
    else modify handle (λ t. record t { pushed = t.pushed ++ payload ∷ [] }) s

unfoldable pub settle : ℕ → LinkSession → LinkSession
settle handle s =
    let t = s.objects handle in if t.local_ended && t.remote_ended then forget t.stream_id s else s

unfoldable pub remote_end : ℕ → LinkSession → LinkSession
remote_end handle s =
    if (s.objects handle).remote_ended
    then s
    else settle handle (modify handle (λ t. record t { remote_ended = true }) s)

-- A stream that the peer opened, handed to `onOpen`.
unfoldable pub accept_stream : ℕ → LinkSession → LinkSession
accept_stream id s =
    let (s', handle) = add_stream id s in record s' { opened = s'.opened ++ handle ∷ [] }

module _ (utf8 : String → List ℕ) (text : List ℕ → String) where
  unfoldable pub reset_frame : ℕ → String → List ℕ
  reset_frame stream_id reason =
      let payload = utf8 reason in
      encode_frame frame_reset stream_id (
        if ltb max_reason_bytes (length payload)
        then first_bytes max_reason_bytes payload
        else payload)

  -- `_destroy`, which `Duplex` calls once.
  unfoldable pub on_destroy : ℕ → Option String → LinkSession → LinkSession
  on_destroy handle error s =
      let t = s.objects handle in
      let reason = elim error as (λ _. String) [
        | none ↦ "stream closed"
        | some message ↦ if str_eq message "" then "stream closed" else message
      ] in
      forget t.stream_id (
        if not t.was_reset && not (t.local_ended && t.remote_ended)
        then send (reset_frame t.stream_id reason)
            (modify handle (λ x. record x { was_reset = true }) s)
        else s)

  -- `stream.destroy(error)`
  unfoldable pub destroy : ℕ → Option String → LinkSession → LinkSession
  destroy handle error s =
      if (s.objects handle).destroyed
      then s
      else on_destroy handle error
          (modify handle (λ t. record t { destroyed = true; error = error }) s)

  unfoldable pub remote_reset : ℕ → String → LinkSession → LinkSession
  remote_reset handle reason s =
      if (s.objects handle).was_reset
      then s
      else destroy handle (some reason) (
          forget (s.objects handle).stream_id
            (modify handle (λ t. record t { was_reset = true }) s))

  -- `_write`: the error is the one that its callback is given.
  unfoldable pub write : ℕ → List ℕ → LinkSession → LinkSession × Option String
  write handle chunk s =
      let t = s.objects handle in
      if t.was_reset
      then (s, some "stream reset")
      else (send (encode_frame frame_data t.stream_id chunk) s, none)

  -- `_final`
  unfoldable pub finish : ℕ → LinkSession → LinkSession
  finish handle s =
      let t = s.objects handle in
      let s' = modify handle (λ x. record x { local_ended = true }) s in
      settle handle (if t.was_reset then s' else send (encode_frame frame_end t.stream_id []) s')

  unfoldable pub reset_reason : List ℕ → String
  reset_reason payload =
      let reason = text payload in if str_eq reason "" then "reset by peer" else reason

  unfoldable pub receive_open : ℕ → Option ℕ → LinkSession → LinkSession
  receive_open id stream s = elim stream [
    | some handle ↦ send (reset_frame id "stream refused") s
    | none ↦ if s.accepts then accept_stream id s else send (reset_frame id "stream refused") s
  ]

  unfoldable pub receive_frame : FrameType → ℕ → List ℕ → Option ℕ → LinkSession → LinkSession
  receive_frame frame_open id payload stream s = receive_open id stream s
  receive_frame frame_data id payload none s = send (reset_frame id "unknown stream") s
  receive_frame frame_end id payload none s = send (reset_frame id "unknown stream") s
  receive_frame frame_reset id payload none s = s
  receive_frame frame_data id payload (some handle) s = remote_data handle payload s
  receive_frame frame_end id payload (some handle) s = remote_end handle s
  receive_frame frame_reset id payload (some handle) s =
      remote_reset handle (reset_reason payload) s

  unfoldable pub receive : List ℕ → LinkSession → LinkSession
  receive message s = if s.closed then s else elim (decode_frame message) [
    | none ↦ s
    | some f ↦ receive_frame f.kind f.stream_id f.payload (get f.stream_id s.streams) s
  ]

  unfoldable pub reset_all : String → Table ℕ → LinkSession → LinkSession
  reset_all reason [] s = s
  reset_all reason ((id, handle) ∷ streams) s =
      reset_all reason streams (remote_reset handle reason s)

  unfoldable pub close : String → LinkSession → LinkSession
  close reason s =
      if s.closed
      then s
      else let s' = reset_all reason s.streams (record s { closed = true }) in
        record s' { streams = [] }

-- One tick of `keepLinkAlive`, and what it does to the socket.
pub data KeepAlive : Type 0 where
  terminate : KeepAlive
  ping : KeepAlive

unfoldable pub keep_alive_tick : (idle_ms now last_heard : ℕ) → KeepAlive
keep_alive_tick idle_ms now last_heard = if leb idle_ms (now - last_heard) then terminate else ping
