-- ===== src/Samples/Udp.antt =====
-- js/samples/udp.js and js/samples/send.js: a mesh over UDP sockets. The functions of the compiled
-- library are operations of a record, and so is what it delivers to the pipes during a call.
use telehash_c.Prelude.{
  ℕ, Bool, true, false, Option, none, some, List, [], ◌∷◌, ◌++◌, ltb, ◌==◌, if◌then◌else◌,
}

-- `hello` is the bytes of `hashname_im(mesh_keys(mesh),0x1a)`; the list beside a mesh holds the calls
-- that it makes of pipes, each a link and a packet.
pub record UdpApi (M P : Type 0) : Type 0 where
  pub parse : List ℕ → Option P
  pub head_len : Option P → ℕ
  pub vkey : Option P → Bool
  pub get_key : M → Option P → M × Option ℕ
  pub raw : P → List ℕ
  pub hello : M → List ℕ
  pub mesh_receive : M → Option P → M × List (ℕ × Option P)
  pub link_sync : M → ℕ → M × List (ℕ × Option P)
  pub link_direct : M → ℕ → List ℕ → M × List (ℕ × Option P)

-- `A` is the type of addresses: the address and port of a datagram.
pub record Socket (M A : Type 0) : Type 0 where
  pub mesh : M
  -- The pipe of each link sends to the address of the datagram in whose handler it was made.
  pub routes : List (ℕ × A)
  pub sent : List (List ℕ × A)
  -- The variable `link` of js/samples/send.js.
  pub link : Option ℕ

-- A datagram with its sender; a packet that the mesh gives to a link's pipe; the standard input.
pub data Event (P A : Type 0) : Type 0 where
  message : List ℕ → A → Event P A
  deliver : ℕ → Option P → Event P A
  typed : List ℕ → Event P A

unfoldable pub route : {A : Type 0} → ℕ → List (ℕ × A) → Option A
route l [] = none
route l ((k, a) ∷ rs) = if k == l then some a else route l rs

module _ {M P A : Type 0} (api : UdpApi M P) where
  -- The function that `link_pipe` is given: null is ignored, any other packet goes to the address.
  unfoldable pub pipe : Option A → Option P → Socket M A → Socket M A
  pipe none packet t = t
  pipe (some a) none t = t
  pipe (some a) (some p) t = record t { sent = t.sent ++ (api.raw p, a) ∷ [] }

  -- src/link.c: `link_send` through the link's pipe, if there is one.
  unfoldable pub link_send : ℕ × Option P → Socket M A → Socket M A
  unfolding pipe route
  link_send (l, packet) t = pipe (route l t.routes) packet t

  unfoldable pub send_all : List (ℕ × Option P) → Socket M A → Socket M A
  unfolding link_send
  send_all [] t = t
  send_all (c ∷ cs) t = send_all cs (link_send c t)

  unfoldable pub called : M × List (ℕ × Option P) → Socket M A → Socket M A
  unfolding send_all
  called (m, calls) t = send_all calls (record t { mesh = m })

  -- src/link.c: `link_pipe` replaces the link's pipe and then syncs the link; a null link has none.
  unfoldable pub link_pipe : Option ℕ → A → Socket M A → Socket M A
  unfolding called
  link_pipe none a t = t
  link_pipe (some l) a t = called (api.link_sync t.mesh l) (record t { routes = (l, a) ∷ t.routes })

  unfoldable pub say_hello : A → Socket M A → Socket M A
  say_hello a t = record t { sent = t.sent ++ (api.hello t.mesh, a) ∷ [] }

  -- The part that both handlers share: the packet holds a key.
  unfoldable pub establish : Bool → Option P → A → Socket M A → Socket M A
  unfolding link_pipe say_hello
  establish greets packet a t =
      let (m, l) = api.get_key t.mesh packet in
      let s : Socket M A = record t { mesh = m; link = l } in
      link_pipe l a (if greets then say_hello a s else s)

  unfoldable pub pass_on : List ℕ → Socket M A → Socket M A
  unfolding called
  pass_on msg t = called (api.mesh_receive t.mesh (api.parse msg)) t

  -- js/samples/udp.js: the socket's handler.
  unfoldable pub receive : List ℕ → A → Socket M A → Socket M A
  unfolding establish pass_on
  receive msg a t =
      let packet = api.parse msg in
      if ltb 6 (api.head_len packet)
      then (if api.vkey packet then establish true packet a t else t)
      else pass_on msg t

  -- js/samples/send.js: the socket's handler.
  unfoldable pub receive_reply : List ℕ → A → Socket M A → Socket M A
  unfolding establish pass_on
  receive_reply msg a t =
      let packet = api.parse msg in
      if api.vkey packet then establish false packet a t else pass_on msg t

  -- js/samples/send.js: the standard input goes to the link, if there is one.
  unfoldable pub on_stdin : Option ℕ → List ℕ → Socket M A → Socket M A
  unfolding called
  on_stdin none input t = t
  on_stdin (some l) input t = called (api.link_direct t.mesh l input) t

  unfoldable pub step : Event P A → Socket M A → Socket M A
  unfolding receive link_send
  step (message msg a) t = receive msg a t
  step (deliver l packet) t = link_send (l, packet) t
  step (typed input) t = t

  unfoldable pub run : List (Event P A) → Socket M A → Socket M A
  unfolding step
  run [] t = t
  run (e ∷ es) t = run es (step e t)

  unfoldable pub step_sender : Event P A → Socket M A → Socket M A
  unfolding receive_reply link_send on_stdin
  step_sender (message msg a) t = receive_reply msg a t
  step_sender (deliver l packet) t = link_send (l, packet) t
  step_sender (typed input) t = on_stdin t.link input t

  unfoldable pub run_sender : List (Event P A) → Socket M A → Socket M A
  unfolding step_sender
  run_sender [] t = t
  run_sender (e ∷ es) t = run_sender es (step_sender e t)
