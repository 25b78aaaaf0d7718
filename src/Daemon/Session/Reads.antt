-- ===== src/Daemon/Session/Reads.antt =====
-- What a session becomes when it reads messages of the server.
use llm_worker_proxy.Shared.{
  ◌≡◌, refl, sym, ap, ◌∙◌, subst, ◌⊎◌, inl, inr, arith, true, String, List, [], ◌∷◌, ◌++◌, map,
  Bool, Result, ok, err,
}
use llm_worker_proxy.Protocol.{RequestMessage, ServerToWorkerMessage}
use llm_worker_proxy.Core.State.{Instant, GracefulShutdownSignal}
use llm_worker_proxy.Socket.Messages.{graceful_shutdown_message}
use llm_worker_proxy.Socket.Loop.{SentFrame}
use llm_worker_proxy.Daemon.Session.Drain.{session_of, message-drains}
use llm_worker_proxy.Daemon.Session.{
  Session, SessionEvent, Progress, running, ended, session_step, session_run, handle_server_message,
  after_message, heard,
}

-- The text frames of a connection, as the worker reads them at the time `now`; `discovered` is what
-- its backend lists meanwhile.
unfoldable pub read_frames :
    Instant → Result (List String) String → List SentFrame → List (Instant × SessionEvent)
read_frames now discovered [] = []
read_frames now discovered (SentFrame.message m ∷ frames) =
    (now, SessionEvent.text discovered (ok m)) ∷ read_frames now discovered frames
read_frames now discovered (SentFrame.close code reason ∷ frames) =
    (now, SessionEvent.close) ∷ read_frames now discovered frames

-- The session has ended with an error.
abbrev pub Fails : Progress → Type 0
Fails p = (s : Session) × (error : String) × (p ≡ ended s (err error))

-- The session runs, and drains, unless it has failed.
abbrev Draining : Progress → Type 0
Draining p = Fails p ⊎ ((s : Session) × (p ≡ running s) × (s.shutting_down ≡ true))

abbrev Alive : Progress → Type 0
Alive p = Fails p ⊎ ((s : Session) × (p ≡ running s))

module _ (now : Instant) (discovered : Result (List String) String) where
  -- What the session becomes on the messages.
  abbrev pub reads : List ServerToWorkerMessage → Progress → Progress
  reads messages p = session_run p (read_frames now discovered (map SentFrame.message messages))

  ended-reads :
      (ms : List ServerToWorkerMessage) (s : Session) (result : Result Bool String)
      → reads ms (ended s result) ≡ ended s result
  unfolding session_run read_frames
  ended-reads [] s result = refl
  ended-reads (m ∷ ms) s result = refl

  reads-append :
      (xs ys : List ServerToWorkerMessage) (p : Progress)
      → reads (xs ++ ys) p ≡ reads ys (reads xs p)
  unfolding session_run read_frames
  reads-append [] ys p = refl
  reads-append (x ∷ xs) ys (ended s result) = sym (ended-reads ys s result)
  reads-append (x ∷ xs) ys (running s) = reads-append xs ys _

  Fails-reads : (ms : List ServerToWorkerMessage) (p : Progress) → Fails p → Fails (reads ms p)
  Fails-reads ms p (s, error, e) = (s, error, ap (reads ms) e ∙ ended-reads ms s (err error))

  message-Alive :
      (s : Session) (m : ServerToWorkerMessage)
      → Alive (after_message s (handle_server_message s discovered m))
  message-Alive s m =
      elim (handle_server_message s discovered m) as (λ r. Alive (after_message s r)) [
        | ok s' ↦ inr (s', refl)
        | err error ↦ inl (s, error, refl)
      ]

  reads-Alive : (ms : List ServerToWorkerMessage) (p : Progress) → Alive p → Alive (reads ms p)
  unfolding session_run read_frames session_step
  reads-Alive [] p a = a
  reads-Alive (m ∷ ms) p (inl fails) = inl (Fails-reads (m ∷ ms) p fails)
  reads-Alive (m ∷ ms) p (inr (s, e)) =
      subst (λ q. Alive (reads (m ∷ ms) q)) (sym e)
        (reads-Alive ms _ (message-Alive (heard s now) m))

  message-Draining :
      (s : Session) (m : ServerToWorkerMessage)
      → s.shutting_down ≡ true
      → Draining (after_message s (handle_server_message s discovered m))
  message-Draining s m draining = elim (message-Alive s m) [
    | inl fails ↦ inl fails
    | inr (s', e) ↦ inr (
      s',
      e,
      sym (ap (λ p. (session_of p).shutting_down) e) ∙ message-drains s discovered m draining,
    )
  ]

  reads-Draining :
      (ms : List ServerToWorkerMessage) (p : Progress) → Draining p → Draining (reads ms p)
  unfolding session_run read_frames session_step
  reads-Draining [] p d = d
  reads-Draining (m ∷ ms) p (inl fails) = inl (Fails-reads (m ∷ ms) p fails)
  reads-Draining (m ∷ ms) p (inr (s, e, draining)) =
      subst (λ q. Draining (reads (m ∷ ms) q)) (sym e)
        (reads-Draining ms _ (message-Draining (heard s now) m draining))

  shutdowns-Draining :
      (signal : GracefulShutdownSignal) (signals : List GracefulShutdownSignal) (p : Progress)
      → Alive p
      → Draining (reads (map graceful_shutdown_message (signal ∷ signals)) p)
  unfolding session_run read_frames session_step handle_server_message
  shutdowns-Draining signal signals p (inl fails) =
      inl (Fails-reads (map graceful_shutdown_message (signal ∷ signals)) p fails)
  shutdowns-Draining signal signals p (inr (s, e)) =
      subst (λ q. Draining (reads (map graceful_shutdown_message (signal ∷ signals)) q)) (sym e)
        (reads-Draining (map graceful_shutdown_message signals) _ (inr (_, refl, refl)))

  abbrev refusal : Session → Progress
  refusal s = ended s (err "received new request while draining worker daemon")

  request-refused :
      (s : Session) (r : RequestMessage)
      → s.shutting_down ≡ true
      → after_message s (handle_server_message s discovered (ServerToWorkerMessage.request r))
        ≡ refusal s
  unfolding handle_server_message
  request-refused s r draining = ground arith

  requests-Fails :
      (r : RequestMessage) (requests : List RequestMessage) (p : Progress)
      → Draining p
      → Fails (reads (map ServerToWorkerMessage.request (r ∷ requests)) p)
  unfolding session_run read_frames session_step
  requests-Fails r requests p (inl fails) =
      Fails-reads (map ServerToWorkerMessage.request (r ∷ requests)) p fails
  requests-Fails r requests p (inr (s, e, draining)) =
      subst (λ q. Fails (reads (map ServerToWorkerMessage.request (r ∷ requests)) q)) (sym e)
        (subst (λ q. Fails (reads (map ServerToWorkerMessage.request requests) q))
          (sym (request-refused (heard s now) r draining))
          (Fails-reads (map ServerToWorkerMessage.request requests) (refusal (heard s now))
            (heard s now, "received new request while draining worker daemon", refl)))

  -- A session that reads shutdown notices and, behind other messages, a request fails.
  pub notice_then_request-Fails :
      (between : List ServerToWorkerMessage) (signal : GracefulShutdownSignal)
      (signals : List GracefulShutdownSignal) (r : RequestMessage) (requests : List RequestMessage)
      (s : Session)
      → Fails (
          reads
            (map graceful_shutdown_message (signal ∷ signals)
              ++ (between ++ map ServerToWorkerMessage.request (r ∷ requests)))
            (running s))
  notice_then_request-Fails between signal signals r requests s = subst Fails (sym split) (
      requests-Fails r requests _
        (reads-Draining between _ (shutdowns-Draining signal signals (running s) (inr (s, refl)))))
    where
      split :
          reads
            (map graceful_shutdown_message (signal ∷ signals)
              ++ (between ++ map ServerToWorkerMessage.request (r ∷ requests)))
            (running s)
          ≡ reads
              (map ServerToWorkerMessage.request (r ∷ requests))
              (reads between (reads (map graceful_shutdown_message (signal ∷ signals)) (running s)))
      split =
          reads-append (map graceful_shutdown_message (signal ∷ signals))
            (between ++ map ServerToWorkerMessage.request (r ∷ requests)) (running s)
          ∙ reads-append between (map ServerToWorkerMessage.request (r ∷ requests)) _
