-- ===== src/Orchestrator/LinkRegistry/Closed.antt =====
-- What leaves a session of an agent link open and what closes it (shared/src/agentLink.ts).
use nexus_infra.Prelude.{
  ℕ, String, ◌≡◌, refl, ◌∙◌, true, Option, none, some, List, [], ◌∷◌, arith, Option-cases, inl, inr,
}
use nexus_infra.Prelude.Table.{get}
use nexus_infra.Shared.AgentLink.{
  LinkSession, allocate_id, add_stream, send, frame_open, FrameType, frame_data, frame_end,
  frame_reset, accept_stream, decode_frame, open_stream, receive_open, receive_frame, receive,
  reset_all, close,
}
use nexus_infra.Shared.AgentLink.Effects.{
  send-Follows, remote_data-Follows, remote_end-Follows, remote_reset-Follows, remote_reset-Resets,
}

pub open_stream-closed :
    (s s' : LinkSession) (handle : ℕ) → open_stream s ≡ some (s', handle) → s'.closed ≡ s.closed
unfolding open_stream add_stream send
open_stream-closed s s' handle h = elim (Option-cases (allocate_id s)) [
  | inl full ↦ ground (arith, h, full)
  | inr ((id, next), e) ↦ ground (arith, h, e)
]

module _ (utf8 : String → List ℕ) (text : List ℕ → String) where
  receive_open-closed :
      (id : ℕ) (stream : Option ℕ) (s : LinkSession)
      → (receive_open utf8 text id stream s).closed ≡ s.closed
  unfolding receive_open accept_stream add_stream send
  receive_open-closed id (some handle) s = ground arith
  receive_open-closed id none s = ground arith

  receive_frame-closed :
      (kind : FrameType) (id : ℕ) (payload : List ℕ) (stream : Option ℕ) (s : LinkSession)
      → (receive_frame utf8 text kind id payload stream s).closed ≡ s.closed
  unfolding receive_frame
  receive_frame-closed frame_open id payload stream s = receive_open-closed id stream s
  receive_frame-closed frame_data id payload none s = (send-Follows _ s).same_closed
  receive_frame-closed frame_end id payload none s = (send-Follows _ s).same_closed
  receive_frame-closed frame_reset id payload none s = refl
  receive_frame-closed frame_data id payload (some h) s =
      (remote_data-Follows h payload s).same_closed
  receive_frame-closed frame_end id payload (some h) s = (remote_end-Follows h s).same_closed
  receive_frame-closed frame_reset id payload (some h) s =
      (remote_reset-Follows utf8 text h _ s).same_closed

  pub receive-closed : (m : List ℕ) (s : LinkSession) → (receive utf8 text m s).closed ≡ s.closed
  unfolding receive
  receive-closed m s = elim (Option-cases (decode_frame m)) [
    | inl bad ↦ ground (arith, bad)
    | inr (f, e) ↦
        ground (
          arith,
          e,
          receive_frame-closed f.kind f.stream_id f.payload (get f.stream_id s.streams) s,
        )
  ]

  reset_all-closed :
      (reason : String) (streams : List (ℕ × ℕ)) (s : LinkSession)
      → (reset_all utf8 text reason streams s).closed ≡ s.closed
  unfolding reset_all
  reset_all-closed reason [] s = refl
  reset_all-closed reason ((id, handle) ∷ streams) s =
      reset_all-closed reason streams _
      ∙ (remote_reset-Resets utf8 text handle reason s).same_closed

  pub close-closed : (reason : String) (s : LinkSession) → (close utf8 text reason s).closed ≡ true
  unfolding close
  close-closed reason s =
      ground (arith, reset_all-closed reason s.streams (record s { closed = true }))
