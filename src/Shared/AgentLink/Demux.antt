-- ===== src/Shared/AgentLink/Demux.antt =====
-- What each stream of an agent link reads, whatever else the link carries (shared/src/agentLink.ts).
use nexus_infra.Prelude.{
  ℕ, ◌<◌, String, ◌≡◌, true, false, Option, none, some, List, [], ◌∷◌, if◌then◌else◌, ◌==◌, arith,
  Bool-cases, Option-cases, ◌⊎◌, inl, inr,
}
use nexus_infra.Prelude.Table.{get, set_at, get-put}
use nexus_infra.Shared.AgentLink.{
  FrameType, frame_open, frame_data, frame_end, frame_reset, decode_frame, new_stream, LinkSession,
  send, forget, modify, add_stream, accept_stream, remote_data, settle, remote_end, reset_frame,
  receive_open, receive_frame, receive,
}
use nexus_infra.Shared.AgentLink.Effects.{
  IsValid, Follows, Follows-IsValid, send-Follows, remote_data-Follows, remote_end-Follows,
  remote_reset-Follows,
}

-- What a frame of the stream gives its reader, and what later frames may still give.
unfoldable pub reads_here : FrameType → List ℕ → List (List ℕ) → List (List ℕ)
reads_here frame_data payload rest = payload ∷ rest
reads_here frame_open payload rest = rest
reads_here frame_end payload rest = []
reads_here frame_reset payload rest = []

-- What a reader of the stream `id` is given of the messages: the payloads of its DATA frames, up to
-- its END or RESET.
unfoldable pub reads : ℕ → List (List ℕ) → List (List ℕ)
reads id [] = []
reads id (m ∷ ms) =
    let rest = reads id ms in
    elim (decode_frame m) [
      | none ↦ rest
      | some f ↦ if f.stream_id == id then reads_here f.kind f.payload rest else rest
    ]

pub accept_stream-IsValid : (id : ℕ) (s : LinkSession) → IsValid s → IsValid (accept_stream id s)
unfolding accept_stream add_stream set_at new_stream
accept_stream-IsValid id s v k h e = elim (Bool-cases (id == k)) [
  | inl this ↦
      let now : s.made ≡ h = ground (arith, e, this, get-put id k s.made s.streams) in
      ground (arith, now, this)
  | inr other ↦
      let before : get k s.streams ≡ some h =
        ground (arith, e, other, get-put id k s.made s.streams) in
      ground (arith, v k h before)
]

-- No frame reaches the stream any more: it has ended, or the session has forgotten it.
pub record Gone (s : LinkSession) (h : ℕ) : Type 0 where
  pub made : h < s.made
  pub ended : (k : ℕ) → get k s.streams ≡ some h → (s.objects h).remote_ended ≡ true

-- The stream `id` is open for reading.
pub record Live (s : LinkSession) (id h : ℕ) : Type 0 where
  pub found : get id s.streams ≡ some h
  pub more : (s.objects h).remote_ended ≡ false
  pub up : s.closed ≡ false

abbrev pub pushed_at : LinkSession → ℕ → List (List ℕ)
pushed_at s h = (s.objects h).pushed

pub Follows-Gone : {s s' : LinkSession} {h : ℕ} → Follows s s' → Gone s h → Gone s' h
Follows-Gone {h = h} f g = record {
  made = omega (arith, f.same_made, g.made);
  ended = λ k e. f.still_ended h (g.ended k (f.fewer k h e));
}

pub send-pushed : (m : List ℕ) (s : LinkSession) (h : ℕ) → pushed_at (send m s) h ≡ pushed_at s h
unfolding send
send-pushed m s h = ground arith

pub remote_end-pushed :
    (handle h : ℕ) (s : LinkSession) → pushed_at (remote_end handle s) h ≡ pushed_at s h
unfolding remote_end settle forget modify set_at
remote_end-pushed handle h s = ground arith

pub remote_data-pushed_ended :
    (handle h : ℕ) (payload : List ℕ) (s : LinkSession)
    → ((s.objects handle).remote_ended ≡ true) ⊎ ((handle == h) ≡ false)
    → pushed_at (remote_data handle payload s) h ≡ pushed_at s h
unfolding remote_data modify set_at
remote_data-pushed_ended handle h payload s (inl e) = ground (arith, e)
remote_data-pushed_ended handle h payload s (inr e) = ground (arith, e)

pub accept_stream-Gone :
    (id h : ℕ) (s : LinkSession)
    → Gone s h
    → Gone (accept_stream id s) h × (pushed_at (accept_stream id s) h ≡ pushed_at s h)
unfolding accept_stream add_stream set_at
accept_stream-Gone id h s g = (
  record { made = omega (arith, g.made); ended = λ k e. ended_after k e },
  ground (arith, g.made),
)
  where
    ended_after :
        (k : ℕ)
        → get k (accept_stream id s).streams ≡ some h
        → ((accept_stream id s).objects h).remote_ended ≡ true
    ended_after k e = elim (Bool-cases (id == k)) [
      | inl this ↦ absurd (ground (arith, e, this, g.made, get-put id k s.made s.streams))
      | inr other ↦
          let before : get k s.streams ≡ some h =
            ground (arith, e, other, get-put id k s.made s.streams) in
          ground (arith, g.ended k before, g.made)
    ]

module _ (utf8 : String → List ℕ) (text : List ℕ → String) where
  pub receive_open-IsValid :
      (id : ℕ) (stream : Option ℕ) (s : LinkSession)
      → IsValid s
      → IsValid (receive_open utf8 text id stream s)
  unfolding receive_open
  receive_open-IsValid id (some h) s v = Follows-IsValid (send-Follows _ s) v
  receive_open-IsValid id none s v = elim (Bool-cases s.accepts) [
    | inl agent ↦
        let same : receive_open utf8 text id none s ≡ accept_stream id s = ground (arith, agent) in
        rw same (accept_stream-IsValid id s v)
    | inr refusing ↦
        let answer = reset_frame utf8 text id "stream refused" in
        let same : receive_open utf8 text id none s ≡ send answer s = ground (arith, refusing) in
        rw same (Follows-IsValid (send-Follows answer s) v)
  ]

  pub receive_frame-IsValid :
      (kind : FrameType) (id : ℕ) (payload : List ℕ) (stream : Option ℕ) (s : LinkSession)
      → IsValid s
      → IsValid (receive_frame utf8 text kind id payload stream s)
  unfolding receive_frame
  receive_frame-IsValid frame_open id payload stream s v = receive_open-IsValid id stream s v
  receive_frame-IsValid frame_data id payload none s v = Follows-IsValid (send-Follows _ s) v
  receive_frame-IsValid frame_end id payload none s v = Follows-IsValid (send-Follows _ s) v
  receive_frame-IsValid frame_reset id payload none s v = v
  receive_frame-IsValid frame_data id payload (some h) s v =
      Follows-IsValid (remote_data-Follows h payload s) v
  receive_frame-IsValid frame_end id payload (some h) s v =
      Follows-IsValid (remote_end-Follows h s) v
  receive_frame-IsValid frame_reset id payload (some h) s v =
      Follows-IsValid (remote_reset-Follows utf8 text h _ s) v

  pub receive-IsValid : (m : List ℕ) (s : LinkSession) → IsValid s → IsValid (receive utf8 text m s)
  unfolding receive
  receive-IsValid m s v = elim (Bool-cases s.closed) [
    | inl down ↦ rw (down, receive) v
    | inr up ↦ elim (Option-cases (decode_frame m)) [
      | inl bad ↦ rw (up, bad, receive) v
      | inr (f, e) ↦
          rw (up, e, receive)
            (receive_frame-IsValid f.kind f.stream_id f.payload (get f.stream_id s.streams) s v)
    ]
  ]
