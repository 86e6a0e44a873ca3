-- ===== src/Shared/AgentLink/Tests.antt =====
-- Tests and instances of the theorems about the agent link.
use nexus_infra.Prelude.{
  ℕ, ◌+◌, ◌*◌, ◌≤◌, String, ◌≡◌, refl, ◌↔◌, true, false, some, List, [], ◌∷◌, ◌++◌, length, arith,
}
use nexus_infra.Prelude.Table.{get, has}
use nexus_infra.Shared.AgentLink.{
  Frame, frame_type, frame_byte, allocate_loop, next_after, reset_frame, receive_frame, frame_data,
  frame_end, frame_reset, encode_frame, decode_frame, LinkSession, new_stream, allocate_id, receive,
  terminate, keep_alive_tick, send,
}
use nexus_infra.Shared.AgentLink.Codec.{decode_frame-encode_frame_iff}
use nexus_infra.Shared.AgentLink.Ids.{IsFresh, allocate_id_total}
use nexus_infra.Shared.AgentLink.Answers.{one_more, none_yet, to_right, to_left, Deliveries-le}
use nexus_infra.Shared.AgentLink.Effects.{IsValid}
use nexus_infra.Shared.AgentLink.Demux.{Live, pushed_at, reads}
use nexus_infra.Shared.AgentLink.Delivery.{
  receive_all, written, write_all, write_all-receive_all, receive_all-reads,
}

-- Stand-ins for Node's conversions, for the runs below.
abbrev utf8 : String → List ℕ
utf8 s = 110 ∷ 111 ∷ []

abbrev text : List ℕ → String
text bytes = "gone"

abbrev hello : List ℕ
hello = 2 ∷ 0 ∷ 0 ∷ 1 ∷ 7 ∷ 104 ∷ 105 ∷ []

abbrev hello_frame : Frame
hello_frame = record { kind = frame_data; stream_id = 263; payload = 104 ∷ 105 ∷ [] }

decode_hello : decode_frame hello ≡ some hello_frame
unfolding decode_frame frame_type
decode_hello = refl

decode_frame-encode_frame_iff_example :
    (decode_frame hello ≡ some hello_frame) ↔ (hello ≡ encode_frame frame_data 263 (104 ∷ 105 ∷ []))
decode_frame-encode_frame_iff_example =
    decode_frame-encode_frame_iff hello hello_frame (omega arith) (omega arith)

-- The ids wrap round onto a stream that is still open.
abbrev wrapping : LinkSession
wrapping = record {
  streams = (4294967295, 0) ∷ (1, 1) ∷ [];
  next_id = 4294967295;
  closed = false;
  accepts = false;
  objects = new_stream;
  made = 2;
  opened = [];
  sent = [];
}

wrapping_id : allocate_id wrapping ≡ some (2, 3)
unfolding allocate_id allocate_loop has next_after
wrapping_id = refl

allocate_id_total_example :
    (id : ℕ) × (next : ℕ) × (allocate_id wrapping ≡ some (id, next))
    × IsFresh wrapping.streams id next
allocate_id_total_example = allocate_id_total wrapping (omega arith) (omega arith) (omega arith)

-- The agent's end, with the stream 1 open under the handle 0 and the stream 2 under 1.
abbrev agent : LinkSession
agent = record {
  streams = (1, 0) ∷ (2, 1) ∷ [];
  next_id = 1;
  closed = false;
  accepts = true;
  objects = λ k. new_stream (k + 1);
  made = 2;
  opened = 0 ∷ 1 ∷ [];
  sent = [];
}

-- The orchestrator's end, with the same streams.
abbrev orchestrator : LinkSession
orchestrator = record agent { accepts = false; opened = []; next_id = 3 }

agent-IsValid : IsValid agent
unfolding get new_stream
agent-IsValid id handle h = ground (arith, h)

agent-Live : Live agent 2 1
unfolding get new_stream
agent-Live = record { found = refl; more = refl; up = refl }

abbrev interleaved : List (ℕ × List ℕ)
interleaved = (1, 10 ∷ []) ∷ (0, 99 ∷ []) ∷ (1, 11 ∷ 12 ∷ []) ∷ []

interleaved_chunks : written orchestrator.objects 2 interleaved ≡ (10 ∷ []) ∷ (11 ∷ 12 ∷ []) ∷ []
unfolding written new_stream
interleaved_chunks = refl

write_all-receive_all_example :
    pushed_at (receive_all utf8 text (write_all utf8 text interleaved orchestrator).sent agent) 1
    ≡ pushed_at agent 1 ++ written orchestrator.objects 2 interleaved
unfolding new_stream
write_all-receive_all_example =
    write_all-receive_all utf8 text interleaved orchestrator agent 2 1 refl refl
      ((refl, omega arith), ((refl, omega arith), ((refl, omega arith), tt))) agent-IsValid
      agent-Live

abbrev mixed : List (List ℕ)
mixed =
    encode_frame frame_data 2 (5 ∷ [])
    ∷ encode_frame frame_end 1 []
    ∷ encode_frame frame_reset 2 []
    ∷ encode_frame frame_data 2 (6 ∷ [])
    ∷ []

receive_all-reads_example :
    pushed_at (receive_all utf8 text mixed agent) 1 ≡ pushed_at agent 1 ++ reads 2 mixed
receive_all-reads_example = receive_all-reads utf8 text mixed 2 1 agent agent-IsValid agent-Live

-- A frame of a stream that the agent does not know, and its answer.
abbrev late : LinkSession
late = record orchestrator { sent = encode_frame frame_data 9 [] ∷ [] }

refusal :
    (receive utf8 text (encode_frame frame_data 9 []) agent).sent
    ≡ encode_frame frame_reset 9 (110 ∷ 111 ∷ []) ∷ []
unfolding receive receive_frame send reset_frame decode_frame encode_frame frame_byte frame_type get
refusal = refl

abbrev agent_after : LinkSession
agent_after = receive utf8 text (encode_frame frame_data 9 []) agent

Deliveries-le_example : 2 ≤ 2 * (length late.sent + length agent.sent)
Deliveries-le_example = Deliveries-le utf8 text 2 (
    one_more
      (one_more none_yet (to_right {l = late} {r = agent} (encode_frame frame_data 9 []) [] refl))
      (to_left {l = record late { sent = [] }} {r = agent_after}
        (encode_frame frame_reset 9 (110 ∷ 111 ∷ [])) [] refusal))

-- A tick of the keep-alive after 45 seconds of silence.
silent_tick : keep_alive_tick 45000 50000 5000 ≡ terminate
unfolding keep_alive_tick
silent_tick = refl
