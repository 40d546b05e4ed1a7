-- ===== src/Samples/Routes.antt =====
-- js/samples/udp.js and js/samples/send.js: where the datagrams of a link go, and which link the
-- standard input goes to.
use telehash_c.Prelude.{
  ℕ, ◌≡◌, refl, sym, ap, ◌∙◌, Bool, true, false, ◌&&◌, Option, none, some, List, [], ◌∷◌, ◌++◌, ltb,
  ◌==◌, if◌then◌else◌, inl, inr, Bool-cases, append-nil,
}
use telehash_c.Samples.Udp.{
  UdpApi, Socket, Event, message, deliver, typed, route, pipe, link_send, send_all, called,
  link_pipe, say_hello, establish, pass_on, receive, receive_reply, on_stdin, step, run,
  step_sender, run_sender,
}

-- The link whose key a datagram holds; js/samples/udp.js takes a key from a packet with a head of more
-- than 6 bytes only.
unfoldable pub greeting : {M P : Type 0} → UdpApi M P → (Option P → Option ℕ) → List ℕ → Option ℕ
greeting api link_of msg =
    if ltb 6 (api.head_len (api.parse msg)) && api.vkey (api.parse msg)
    then link_of (api.parse msg)
    else none

module _ {M P A : Type 0} (api : UdpApi M P) where
  -- A call of the mesh changes no pipe, and not the variable `link`.
  abbrev Kept : Socket M A → Socket M A → Type 0
  Kept s t = (s.routes ≡ t.routes) × (s.link ≡ t.link)

  pipe-Kept : (a : Option A) (p : Option P) (t : Socket M A) → Kept (pipe api a p t) t
  unfolding pipe
  pipe-Kept none p t = (refl, refl)
  pipe-Kept (some a) none t = (refl, refl)
  pipe-Kept (some a) (some p) t = (refl, refl)

  link_send-Kept : (c : ℕ × Option P) (t : Socket M A) → Kept (link_send api c t) t
  unfolding link_send
  link_send-Kept (l, p) t = pipe-Kept (route l t.routes) p t

  send_all-Kept : (cs : List (ℕ × Option P)) (t : Socket M A) → Kept (send_all api cs t) t
  unfolding send_all
  send_all-Kept [] t = (refl, refl)
  send_all-Kept (c ∷ cs) t =
      let rest = send_all-Kept cs (link_send api c t) in
      let this = link_send-Kept c t in (rest.0 ∙ this.0, rest.1 ∙ this.1)

  called-Kept : (r : M × List (ℕ × Option P)) (t : Socket M A) → Kept (called api r t) t
  unfolding called
  called-Kept (m, calls) t = send_all-Kept calls (record t { mesh = m })

  pass_on-Kept : (msg : List ℕ) (t : Socket M A) → Kept (pass_on api msg t) t
  unfolding pass_on
  pass_on-Kept msg t = called-Kept (api.mesh_receive t.mesh (api.parse msg)) t

  on_stdin-Kept : (l : Option ℕ) (input : List ℕ) (t : Socket M A) → Kept (on_stdin api l input t) t
  unfolding on_stdin
  on_stdin-Kept none input t = (refl, refl)
  on_stdin-Kept (some l) input t = called-Kept (api.link_direct t.mesh l input) t

  -- The pipes after one was made for a link, if it is one.
  abbrev piped : Option ℕ → A → List (ℕ × A) → List (ℕ × A)
  piped none a rs = rs
  piped (some l) a rs = (l, a) ∷ rs

  link_pipe_lem :
      (l : Option ℕ) (a : A) (t : Socket M A)
      → ((link_pipe api l a t).routes ≡ piped l a t.routes) × ((link_pipe api l a t).link ≡ t.link)
  unfolding link_pipe
  link_pipe_lem none a t = (refl, refl)
  link_pipe_lem (some l) a t =
      called-Kept (api.link_sync t.mesh l) (record t { routes = (l, a) ∷ t.routes })

  establish_lem :
      (greets : Bool) (p : Option P) (a : A) (t : Socket M A)
      → ((establish api greets p a t).routes ≡ piped (api.get_key t.mesh p).1 a t.routes)
        × ((establish api greets p a t).link ≡ (api.get_key t.mesh p).1)
  unfolding establish say_hello
  establish_lem true p a t = link_pipe_lem (api.get_key t.mesh p).1 a _
  establish_lem false p a t = link_pipe_lem (api.get_key t.mesh p).1 a _

  -- The address that packets for link `l` go to, if a datagram with a link's key comes.
  unfoldable pub hears : ℕ → Option ℕ → A → Option A → Option A
  hears l none a old = old
  hears l (some k) a old = if k == l then some a else old

  route-piped :
      (l : ℕ) (k : Option ℕ) (a : A) (rs : List (ℕ × A))
      → route l (piped k a rs) ≡ hears l k a (route l rs)
  unfolding route hears
  route-piped l none a rs = refl
  route-piped l (some k) a rs = refl

  -- The address after a row of events, by the link whose key each datagram holds, if it holds one.
  unfoldable pub heard : (List ℕ → Option ℕ) → ℕ → List (Event P A) → Option A → Option A
  unfolding hears
  heard key l [] old = old
  heard key l (message msg a ∷ es) old = heard key l es (hears l (key msg) a old)
  heard key l (deliver k p ∷ es) old = heard key l es old
  heard key l (typed input ∷ es) old = heard key l es old

  -- The datagrams that a packet for an address makes.
  unfoldable pub datagram : Option A → P → List (List ℕ × A)
  datagram none p = []
  datagram (some a) p = (api.raw p, a) ∷ []

  sent-pipe :
      (a : Option A) (p : P) (t : Socket M A)
      → (pipe api a (some p) t).sent ≡ t.sent ++ datagram a p
  unfolding pipe datagram
  sent-pipe none p t = sym (append-nil t.sent)
  sent-pipe (some a) p t = refl

  run-snoc :
      (es : List (Event P A)) (e : Event P A) (t : Socket M A)
      → run api (es ++ e ∷ []) t ≡ step api e (run api es t)
  unfolding run
  run-snoc [] e t = refl
  run-snoc (d ∷ es) e t = run-snoc es e (step api d t)

  run_sender-snoc :
      (es : List (Event P A)) (e : Event P A) (t : Socket M A)
      → run_sender api (es ++ e ∷ []) t ≡ step_sender api e (run_sender api es t)
  unfolding run_sender
  run_sender-snoc [] e t = refl
  run_sender-snoc (d ∷ es) e t = run_sender-snoc es e (step_sender api d t)

  -- Which link a key belongs to does not depend on the mesh.
  module _ (link_of : Option P → Option ℕ)
      (stable : (m : M) (p : Option P) → (api.get_key m p).1 ≡ link_of p) where
    receive_lem :
        (l : ℕ) (msg : List ℕ) (a : A) (t : Socket M A)
        → route l (receive api msg a t).routes
          ≡ hears l (greeting api link_of msg) a (route l t.routes)
    unfolding receive greeting hears
    receive_lem l msg a t =
        let kept = ap (route l) (pass_on-Kept msg t).0 in
        let made =
          ap (route l) (
            (establish_lem true (api.parse msg) a t).0
            ∙ ap (λ k. piped k a t.routes) (stable t.mesh (api.parse msg)))
          ∙ route-piped l (link_of (api.parse msg)) a t.routes in
        elim (Bool-cases (ltb 6 (api.head_len (api.parse msg)))) [
          | inl long ↦ elim (Bool-cases (api.vkey (api.parse msg))) [
            | inl valid ↦ rw (long, valid) made
            | inr wrong ↦ rw (long, wrong)
          ]
          | inr short ↦ rw short kept
        ]

    step_lem :
        (l : ℕ) (e : Event P A) (t : Socket M A)
        → route l (step api e t).routes ≡ heard (greeting api link_of) l (e ∷ []) (route l t.routes)
    unfolding step heard
    step_lem l (message msg a) t = receive_lem l msg a t
    step_lem l (deliver k p) t = ap (route l) (link_send-Kept (k, p) t).0
    step_lem l (typed input) t = refl

    heard-cons :
        (l : ℕ) (e : Event P A) (es : List (Event P A)) (old : Option A)
        → heard (greeting api link_of) l es (heard (greeting api link_of) l (e ∷ []) old)
          ≡ heard (greeting api link_of) l (e ∷ es) old
    unfolding heard
    heard-cons l (message msg a) es old = refl
    heard-cons l (deliver k p) es old = refl
    heard-cons l (typed input) es old = refl

    route-run :
        (l : ℕ) (es : List (Event P A)) (t : Socket M A)
        → route l (run api es t).routes ≡ heard (greeting api link_of) l es (route l t.routes)
    unfolding run heard
    route-run l [] t = refl
    route-run l (e ∷ es) t =
        route-run l es (step api e t)
        ∙ ap (heard (greeting api link_of) l es) (step_lem l e t)
        ∙ heard-cons l e es (route l t.routes)

    -- js/samples/udp.js: if the link of a key does not depend on the mesh, then after any row of
    -- datagrams and packets, a packet that the mesh sends to a link goes out once, to the sender of
    -- the last datagram that had the link's key in a head of more than 6 bytes; to the address that
    -- the link had before if there was none, and nowhere if it had none.
    pub deliver_to_last :
        (es : List (Event P A)) (l : ℕ) (p : P) (t : Socket M A)
        → (run api (es ++ deliver l (some p) ∷ []) t).sent
          ≡ (run api es t).sent ++ datagram (heard (greeting api link_of) l es (route l t.routes)) p
    unfolding step link_send
    deliver_to_last es l p t =
        ap (λ s. s.sent) (run-snoc es (deliver l (some p)) t)
        ∙ sent-pipe (route l (run api es t).routes) p (run api es t)
        ∙ ap (λ r. (run api es t).sent ++ datagram r p) (route-run l es t)

    -- The link of the last datagram with a key, by js/samples/send.js.
    unfoldable pub last_link : List (Event P A) → Option ℕ → Option ℕ
    last_link [] old = old
    last_link (message msg a ∷ es) old =
        last_link es (if api.vkey (api.parse msg) then link_of (api.parse msg) else old)
    last_link (deliver k p ∷ es) old = last_link es old
    last_link (typed input ∷ es) old = last_link es old

    link-receive_reply :
        (msg : List ℕ) (a : A) (t : Socket M A)
        → (receive_reply api msg a t).link
          ≡ (if api.vkey (api.parse msg) then link_of (api.parse msg) else t.link)
    unfolding receive_reply
    link-receive_reply msg a t = elim (Bool-cases (api.vkey (api.parse msg))) [
      | inl valid ↦
          rw valid ((establish_lem false (api.parse msg) a t).1 ∙ stable t.mesh (api.parse msg))
      | inr wrong ↦ rw wrong (pass_on-Kept msg t).1
    ]

    link-run_sender :
        (es : List (Event P A)) (t : Socket M A) → (run_sender api es t).link ≡ last_link es t.link
    unfolding run_sender step_sender last_link
    link-run_sender [] t = refl
    link-run_sender (message msg a ∷ es) t =
        link-run_sender es (receive_reply api msg a t)
        ∙ ap (last_link es) (link-receive_reply msg a t)
    link-run_sender (deliver k p ∷ es) t =
        link-run_sender es (link_send api (k, p) t) ∙ ap (last_link es) (link_send-Kept (k, p) t).1
    link-run_sender (typed input ∷ es) t =
        link-run_sender es (on_stdin api t.link input t)
        ∙ ap (last_link es) (on_stdin-Kept t.link input t).1

    -- js/samples/send.js: if the link of a key does not depend on the mesh, then after any row of
    -- events the standard input goes to the link of the last datagram with a key, and nowhere if
    -- there is none.
    pub typed_to_last :
        (es : List (Event P A)) (input : List ℕ) (t : Socket M A)
        → run_sender api (es ++ typed input ∷ []) t
          ≡ on_stdin api (last_link es t.link) input (run_sender api es t)
    unfolding step_sender
    typed_to_last es input t =
        run_sender-snoc es (typed input) t
        ∙ ap (λ l. on_stdin api l input (run_sender api es t)) (link-run_sender es t)
