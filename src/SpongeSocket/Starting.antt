-- ===== src/SpongeSocket/Starting.antt =====
-- How the owner starts a connection.
use tcp_impliment.Common.{◌≡◌, refl, ap, ◌∙◌, true, false, not, none, some, ◌++◌, if_true, if_false}
use tcp_impliment.WrappingInt.{WrappingInt32}
use tcp_impliment.Connection
use tcp_impliment.Connection.{TcpConfig, TcpConnection}
use tcp_impliment.State.{State, of_state, summary}
use tcp_impliment.State.Official.{new_states}
use tcp_impliment.TcpOverIp.{FdAdapterConfig}
use tcp_impliment.SpongeSocket.{Adapter, Stream, rules}
use tcp_impliment.SpongeSocket.Running.{
  SpongeSocket, Surroundings, same_state, initialize_tcp, with_config, with_tcp, start_connect,
  start_listen,
}

module _ {ℓ} {A D : Type ℓ} (adapter : Adapter A) (stream : Stream D) (around : Surroundings A D)
    (s : SpongeSocket A D) (c_tcp : TcpConfig) (random : WrappingInt32)
    (c_ad : FdAdapterConfig) where
  -- A socket that has no connection yet starts one by `connect`, which does not throw, in SYN_SENT,
  -- and by `listen_and_accept` in LISTEN, with the four rules behind those of the event loop and the
  -- adapter configured, and listening in the second case only. One that has a connection throws.
  pub start_lem :
      (s.has_tcp ≡ true
        → (start_connect adapter stream around s c_tcp random c_ad ≡ none)
          × (start_listen adapter stream around s c_tcp random c_ad ≡ none))
      × (s.has_tcp ≡ false
          → (connected : SpongeSocket A D) × (listening : SpongeSocket A D) × (start_connect adapter
                stream around s c_tcp random c_ad
              ≡ some connected)
            × (start_listen adapter stream around s c_tcp random c_ad ≡ some listening)
            × (summary connected.thread.tcp ≡ of_state State.syn_sent)
            × (summary listening.thread.tcp ≡ of_state State.listen)
            × (connected.eventloop ≡ s.eventloop ++ rules adapter stream)
            × (listening.eventloop ≡ s.eventloop ++ rules adapter stream)
            × (connected.thread.datagram_adapter
                ≡ adapter.set_config s.thread.datagram_adapter c_ad)
            × (listening.thread.datagram_adapter
                ≡ adapter.set_listening (adapter.set_config s.thread.datagram_adapter c_ad) true))
  unfolding start_connect start_listen of_state
  start_lem =
      let states = new_states c_tcp random in
      let opened =
        with_config adapter stream around (initialize_tcp adapter stream around s c_tcp random) c_ad
          false in
      (
        λ has. (if_true _ _ has, if_true _ _ has),
        λ fresh. (
          with_tcp adapter stream around opened (Connection.connect opened.thread.tcp),
          with_config adapter stream around (initialize_tcp adapter stream around s c_tcp random)
              c_ad true,
          if_false _ _ fresh
              ∙ if_false _ _
                  (ap (λ x. not (same_state x (of_state State.syn_sent))) states.1 ∙ expected),
          if_false _ _ fresh,
          states.1,
          states.0,
          refl,
          refl,
          refl,
          refl,
        ),
      )
    where
      expected : not (same_state (of_state State.syn_sent) (of_state State.syn_sent)) ≡ false
      expected = refl
