-- ===== src/Shared/AgentLink/Ended.antt =====
-- What received frames leave of a stream that has ended (shared/src/agentLink.ts).
use nexus_infra.Prelude.{
  ℕ, String, ◌≡◌, refl, Option, none, some, List, ◌==◌, arith, Bool-cases, Option-cases, inl, inr,
}
use nexus_infra.Prelude.Table.{get}
use nexus_infra.Shared.AgentLink.{
  FrameType, frame_open, frame_data, frame_end, frame_reset, decode_frame, LinkSession, send,
  accept_stream, reset_frame, reset_reason, receive_open, receive_frame, receive,
}
use nexus_infra.Shared.AgentLink.Effects.{
  send-Follows, remote_data-Follows, remote_end-Follows, remote_reset-Resets, remote_reset-Follows,
}
use nexus_infra.Shared.AgentLink.Demux.{
  Gone, pushed_at, Follows-Gone, send-pushed, remote_end-pushed, remote_data-pushed_ended,
  accept_stream-Gone,
}

-- A step that leaves a stream gone, and what was pushed to its reader as it was.
abbrev pub StaysGone : LinkSession → LinkSession → ℕ → Type 0
StaysGone s s' h = Gone s' h × (pushed_at s' h ≡ pushed_at s h)

module _ (utf8 : String → List ℕ) (text : List ℕ → String) where
  pub receive_open-Gone :
      (id h : ℕ) (stream : Option ℕ) (s : LinkSession)
      → Gone s h
      → StaysGone s (receive_open utf8 text id stream s) h
  unfolding receive_open
  receive_open-Gone id h (some handle) s g = (Follows-Gone (send-Follows _ s) g, send-pushed _ s h)
  receive_open-Gone id h none s g = elim (Bool-cases s.accepts) [
    | inl agent ↦
        let same : receive_open utf8 text id none s ≡ accept_stream id s = ground (arith, agent) in
        rw same (accept_stream-Gone id h s g)
    | inr refusing ↦
        let answer = reset_frame utf8 text id "stream refused" in
        let same : receive_open utf8 text id none s ≡ send answer s = ground (arith, refusing) in
        rw same (Follows-Gone (send-Follows answer s) g, send-pushed answer s h)
  ]

  pub receive_frame-Gone :
      (kind : FrameType) (id h : ℕ) (payload : List ℕ) (stream : Option ℕ) (s : LinkSession)
      → get id s.streams ≡ stream
      → Gone s h
      → StaysGone s (receive_frame utf8 text kind id payload stream s) h
  unfolding receive_frame
  receive_frame-Gone frame_open id h payload stream s e g = receive_open-Gone id h stream s g
  receive_frame-Gone frame_data id h payload none s e g =
      (Follows-Gone (send-Follows _ s) g, send-pushed _ s h)
  receive_frame-Gone frame_end id h payload none s e g =
      (Follows-Gone (send-Follows _ s) g, send-pushed _ s h)
  receive_frame-Gone frame_reset id h payload none s e g = (g, refl)
  receive_frame-Gone frame_data id h payload (some handle) s e g = (
    Follows-Gone (remote_data-Follows handle payload s) g,
    remote_data-pushed_ended handle h payload s (elim (Bool-cases (handle == h)) [
      | inr other ↦ inr other
      | inl this ↦
          let now : handle ≡ h = ground (arith, this) in
          let found : get id s.streams ≡ some h = rw⁻¹ now e in inl (rw now (g.ended id found))
    ]),
  )
  receive_frame-Gone frame_end id h payload (some handle) s e g =
      (Follows-Gone (remote_end-Follows handle s) g, remote_end-pushed handle h s)
  receive_frame-Gone frame_reset id h payload (some handle) s e g =
      let reason = reset_reason utf8 text payload in
      (
        Follows-Gone (remote_reset-Follows utf8 text handle reason s) g,
        (remote_reset-Resets utf8 text handle reason s).same_pushed h,
      )

  pub receive-Gone :
      (m : List ℕ) (h : ℕ) (s : LinkSession) → Gone s h → StaysGone s (receive utf8 text m s) h
  unfolding receive
  receive-Gone m h s g = elim (Bool-cases s.closed) [
    | inl down ↦ let same : receive utf8 text m s ≡ s = ground (arith, down) in rw same (g, refl)
    | inr up ↦ elim (Option-cases (decode_frame m)) [
      | inl bad ↦
          let same : receive utf8 text m s ≡ s = ground (arith, up, bad) in rw same (g, refl)
      | inr (f, e) ↦
          rw (up, e, receive)
            (receive_frame-Gone f.kind f.stream_id h f.payload (get f.stream_id s.streams) s refl g)
    ]
  ]
