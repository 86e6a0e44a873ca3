-- ===== src/Shared/AgentLink/Codec.antt =====
-- Round trips of the frames of the agent link (shared/src/agentLink.ts).
use nexus_infra.Prelude.{
  ℕ, ◌+◌, ◌*◌, ◌/◌, ◌%◌, ◌<◌, ◌≡◌, refl, ◌↔◌, some, List, [], ◌∷◌, All, arith, Option-cases, inl,
  inr,
}
use nexus_infra.Shared.AgentLink.{
  Frame, FrameType, frame_open, frame_data, frame_end, frame_reset, frame_byte, frame_type,
  encode_frame, decode_frame,
}

abbrev pub IsByte : ℕ → Type 0
IsByte b = b < 256

frame_type-frame_byte : (kind : FrameType) → frame_type (frame_byte kind) ≡ some kind
unfolding frame_type frame_byte
frame_type-frame_byte frame_open = refl
frame_type-frame_byte frame_data = refl
frame_type-frame_byte frame_end = refl
frame_type-frame_byte frame_reset = refl

frame_byte_of_type :
    (byte : ℕ) (kind : FrameType) → frame_type byte ≡ some kind → frame_byte kind ≡ byte
unfolding frame_type frame_byte
frame_byte_of_type byte frame_open h = ground (arith, h)
frame_byte_of_type byte frame_data h = ground (arith, h)
frame_byte_of_type byte frame_end h = ground (arith, h)
frame_byte_of_type byte frame_reset h = ground (arith, h)

word_of_bytes :
    (id : ℕ)
    → id < 4294967296
    → 16777216 * (id % 4294967296 / 16777216)
        + 65536 * (id % 4294967296 / 65536 % 256)
        + 256 * (id % 4294967296 / 256 % 256)
        + id % 4294967296 % 256
      ≡ id
word_of_bytes id small = omega arith

pub decode_frame-encode_frame :
    (kind : FrameType) (id : ℕ) (payload : List ℕ)
    → id < 4294967296
    → decode_frame (encode_frame kind id payload)
      ≡ some (record { kind = kind; stream_id = id; payload = payload })
unfolding decode_frame encode_frame
decode_frame-encode_frame kind id payload small =
    rw (frame_type-frame_byte kind, decode_frame) (ground (arith, small, word_of_bytes id))

abbrev frame_bytes : Frame → List ℕ
frame_bytes f = encode_frame f.kind f.stream_id f.payload

encode_frame_of_decode :
    (message : List ℕ) (f : Frame)
    → All IsByte message
    → decode_frame message ≡ some f
    → message ≡ frame_bytes f
unfolding decode_frame encode_frame
encode_frame_of_decode (k ∷ a ∷ b ∷ c ∷ d ∷ payload) f (ik, (ia, (ib, (ic, (id, rest))))) h =
    elim (Option-cases (frame_type k)) [
      | inl bad ↦ absurd (ground (arith, h, bad))
      | inr (kind, e) ↦ ground (arith, h, e, frame_byte_of_type k kind e)
    ]
encode_frame_of_decode [] f all h = absurd (ground (arith, h))
encode_frame_of_decode (k ∷ []) f all h = absurd (ground (arith, h))
encode_frame_of_decode (k ∷ a ∷ []) f all h = absurd (ground (arith, h))
encode_frame_of_decode (k ∷ a ∷ b ∷ []) f all h = absurd (ground (arith, h))
encode_frame_of_decode (k ∷ a ∷ b ∷ c ∷ []) f all h = absurd (ground (arith, h))

-- A message of bytes decodes to a frame exactly when it is what the peer sends for that frame, whose
-- stream id fits 32 bits; so no two messages decode alike and nothing of a frame is lost.
pub decode_frame-encode_frame_iff :
    (message : List ℕ) (f : Frame)
    → All IsByte message
    → f.stream_id < 4294967296
    → (decode_frame message ≡ some f) ↔ (message ≡ encode_frame f.kind f.stream_id f.payload)
decode_frame-encode_frame_iff message f bytes small = (
  encode_frame_of_decode message f bytes,
  λ h. rw h (decode_frame-encode_frame f.kind f.stream_id f.payload small),
)
