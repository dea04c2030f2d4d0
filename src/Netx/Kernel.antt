-- ===== src/Netx/Kernel.antt =====
-- `EnableBBR` and `ReadInfo` of netx/net.go, over `RealConnInfo` of netx/iface/fdinfo.go, which passes the calls on to
-- bbr/ and tcpinfox/.
use ndt_server.Bbr
use ndt_server.Bbr.Bounds.{IsAccepted, info_of, get_max_bandwidth_iff}
use ndt_server.Bbr.{get_max_bandwidth_and_min_rtt}
use ndt_server.Common.{
  ℕ, ◌≡◌, ◌⊎◌, ◌↔◌, refl, inl, inr, Option, none, some, Error, Result, ok, err, arith,
}
use ndt_server.Ndt7.Model.{BbrInfo}
use ndt_server.Netx.{no_bbr_info, read_info}
use ndt_server.Tcp.{TcpInfo}
use ndt_server.Tcpinfox
use ndt_server.Tcpinfox.{get_tcp_info}

-- What the kernel answers for the descriptor of a connection.
pub record Answers : Type 0 where
  pub bbr : Bbr.Sockopt
  pub tcp : Tcpinfox.Sockopt

abbrev pub by_error : {A : Type 0} → A × Option Error → Result A
by_error (a, none) = ok a
by_error (a, some e) = err e

module _ (errno_error : ℕ → Error) where
  -- `GetBBRInfo` and `GetTCPInfo` of `RealConnInfo`.
  abbrev pub real_get_bbr_info : Answers → Result BbrInfo
  real_get_bbr_info k = get_max_bandwidth_and_min_rtt errno_error k.bbr

  abbrev pub real_get_tcp_info : Answers → TcpInfo × Option Error
  real_get_tcp_info k = get_tcp_info errno_error k.tcp

  -- `ReadInfo`.
  unfoldable pub conn_read_info : Answers → Result (BbrInfo × TcpInfo)
  conn_read_info k = read_info (real_get_bbr_info k) (by_error (real_get_tcp_info k))

  -- The TCP calls succeed.
  abbrev pub IsRead : Tcpinfox.Sockopt → Type 0
  IsRead s = (s.syscall_conn ≡ none) × (s.control ≡ none) × (s.errno ≡ 0)

  by_error_iff :
      (s : Tcpinfox.Sockopt) (t : TcpInfo)
      → (by_error (get_tcp_info errno_error s) ≡ ok t) ↔ (IsRead s × (t ≡ s.info))
  unfolding get_tcp_info
  by_error_iff s t = ground arith

reads :
    (rb : Result BbrInfo) (rt : Result TcpInfo) (b : BbrInfo) (t : TcpInfo)
    → (read_info rb rt ≡ ok (b, t))
      ↔ ((rt ≡ ok t) × ((rb ≡ ok b) ⊎ ((e : Error) × (rb ≡ err e) × (b ≡ no_bbr_info))))
unfolding read_info
reads (ok a) (ok u) b t = (
  λ h. (ground arith, inl (ground arith)),
  λ (p, q). elim q [ inl r ↦ ground arith | inr (e, r, i) ↦ ground arith ],
)
reads (err x) (ok u) b t = (
  λ h. (ground arith, inr (x, refl, ground arith)),
  λ (p, q). elim q [ inl r ↦ ground arith | inr (e, r, i) ↦ ground arith ],
)
reads rb (err x) b t = (λ h. ground arith, λ (p, q). ground arith)

module _ (errno_error : ℕ → Error) where
  -- `ReadInfo` succeeds exactly when no call for the TCP info fails, whatever happens to the BBR info: it then returns
  -- the kernel's TCP info, with the kernel's BBR info if its calls succeed, its size is right and its bandwidth
  -- fits an int64, and else, when the calls for it give an error, with the empty one.
  pub conn_read_info_iff :
      (k : Answers) (b : BbrInfo) (t : TcpInfo)
      → (conn_read_info errno_error k ≡ ok (b, t)) ↔ (
          IsRead errno_error k.tcp
          × (t ≡ k.tcp.info)
          × ((IsAccepted k.bbr × (b ≡ info_of k.bbr.info))
              ⊎ ((e : Error) × (get_max_bandwidth_and_min_rtt errno_error k.bbr ≡ err e)
                  × (b ≡ no_bbr_info))))
  unfolding conn_read_info
  conn_read_info_iff k b t =
      let whole =
        reads (get_max_bandwidth_and_min_rtt errno_error k.bbr)
          (by_error (get_tcp_info errno_error k.tcp)) b t in
      let tcp = by_error_iff errno_error k.tcp t in
      let bbr = get_max_bandwidth_iff errno_error k.bbr b in
      (
        λ h.
            let (p, q) = whole.0 h in
            let (r, i) = tcp.0 p in (r, i, elim q [ inl g ↦ inl (bbr.0 g) | inr g ↦ inr g ]),
        λ (r, i, q). whole.1 (tcp.1 (r, i), elim q [ inl g ↦ inl (bbr.1 g) | inr g ↦ inr g ]),
      )
