-- ===== src/Socket/Calls.antt =====
-- What a shutdown of the writing end that returns has done.
use tcp_impliment.Common.{some_back, bind_back, ◌≡◌, sym, ap, ◌∙◌, some}
use tcp_impliment.FileDescriptor.{FdWrapper, value, checked, register_write}
use tcp_impliment.FileDescriptor.Calls.{checked_back}
use tcp_impliment.Socket.{SocketCalls, shutdown, shut_wr}

module _ {ℓ} {K : Type ℓ} (calls : SocketCalls K) (f f' : FdWrapper) (k k' : K) where
  pub shutdown_back :
      shutdown calls (f, k) shut_wr ≡ some (f', k')
      → (calls.shutdown k f.fd shut_wr ≡ (value tt, k')) × (f' ≡ register_write f)
  unfolding shutdown
  shutdown_back e =
      let (r, k1) = calls.shutdown k f.fd shut_wr in
      let (_, run, done) = bind_back (checked r) _ (f', k') e in
      let q = some_back _ _ done in
      (
        ap (λ x. (x, k1)) (checked_back r tt run) ∙ ap (λ (r : FdWrapper × K). (value tt, r.1)) q,
        sym (ap (λ (r : FdWrapper × K). r.0) q),
      )
