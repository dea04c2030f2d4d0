-- ===== src/Netx/Addresses.antt =====
-- When the helpers that see through an `Addr` give a value, give nil or panic.
use ndt_server.Common.{ℕ, ◌≡◌, refl, ◌↔◌, ◌⊎◌, inl, inr, none, Bytes, arith}
use ndt_server.Netx.{
  returns, panics, Addr, wrapped, tcp_addr, other_addr, conn_addr, to_tcp_addr, NetConn, plain_conn,
  tls_conn, other_conn, to_conn_info,
}

-- `ToConnInfo` panics exactly for a TLS connection whose local address is no `*Addr`; for a connection
-- of an unsupported type it returns nil.
pub to_conn_info_iff :
    (c : NetConn)
    → ((to_conn_info c ≡ panics) ↔ (
        (a : Addr) × (c ≡ tls_conn a)
        × ((a ≡ other_addr) ⊎ ((ip : Bytes) × (port : ℕ) × (a ≡ tcp_addr ip port)))))
      × ((to_conn_info c ≡ returns none) ↔ (c ≡ other_conn))
unfolding to_conn_info
to_conn_info_iff (plain_conn i) =
    ((λ h. ground arith, λ (a, e, h). ground arith), (λ h. ground arith, λ h. ground arith))
to_conn_info_iff (tls_conn (wrapped a i)) = (
  (λ h. ground arith, λ (a, e, h). elim h [ inl q ↦ cc | inr (ip, port, q) ↦ cc ]),
  (λ h. ground arith, λ h. ground arith),
)
to_conn_info_iff (tls_conn (tcp_addr ip port)) = (
  (λ h. (tcp_addr ip port, refl, inr (ip, port, refl)), λ (a, e, h). refl),
  (λ h. ground arith, λ h. ground arith),
)
to_conn_info_iff (tls_conn other_addr) =
    ((λ h. (other_addr, refl, inl refl), λ (a, e, h). refl), (λ h. ground arith, λ h. ground arith))
to_conn_info_iff other_conn =
    ((λ h. ground arith, λ (a, e, h). ground arith), (λ h. refl, λ h. refl))

-- The address that an accepted TCP connection reports, seen through its wrapper, and the parent
-- that a TLS connection over it leads back to.
pub conn_addr_transparent :
    (i : ℕ) (ip : Bytes) (port : ℕ)
    → (to_tcp_addr (conn_addr i (tcp_addr ip port)) ≡ to_tcp_addr (tcp_addr ip port))
      × (to_conn_info (tls_conn (conn_addr i (tcp_addr ip port))) ≡ to_conn_info (plain_conn i))
unfolding to_conn_info to_tcp_addr conn_addr
conn_addr_transparent i ip port = (refl, refl)
