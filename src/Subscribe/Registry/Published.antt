-- ===== src/Subscribe/Registry/Published.antt =====
-- What the service publishes is what its clients read.
use wing_binlog_go.Prelude.{
  ℕ, ◌<◌, ◌^◌, ◌≡◌, refl, ap, sym, ◌∙◌, Bool, true, false, not, ◌&&◌, inl, inr, List, [], ◌∷◌, ◌++◌,
  ok, ok-injective, panic, Bytes, bytes_eq, if◌then◌else◌, arith, Bool-cases,
}
use mathlib.Core.List.{append_assoc}
use wing_binlog_go.Wire.Word.{word64-byte_at}
use wing_binlog_go.Binlog.Position.{read_int64}
use wing_binlog_go.Subscribe.Registry.{
  Service, ServiceOption, with_ttl, with_interval, with_service_ip, set_option, set_options, Call,
  renew, put, update_ttl, Answer, pair, new_service, identify, initial, address, id_of,
  connects_key, put_uint64, update_round, registration, get_connects, read_answer, any_host,
}

unfoldable pub is_put : Call → Bool
is_put (put key value) = true
is_put c = false

unfoldable pub no_put : List Call → Bool
unfolding is_put
no_put [] = true
no_put (c ∷ cs) = not (is_put c) && no_put cs

-- The key-value store of consul, after some calls: a key that was put is read back, until the next
-- put.
pub record Store : Type 0 where
  pub get : List Call → Bytes → Answer
  pub get-put :
      (before after : List Call) (key value : Bytes)
      → no_put after ≡ true
      → get (before ++ put key value ∷ after) key ≡ pair value

read-put : (n : ℕ) → n < 2 ^ 64 → read_int64 (put_uint64 n) 0 ≡ ok n
unfolding read_int64 put_uint64
read-put n h = ap ok (word64-byte_at n h)

-- Behind the put of a round there is no other one.
round-put :
    (s : Service)
    → (before after : List Call) × ((update_round s).calls
        ≡ before ++ put (connects_key (address s) s.service_port) (put_uint64 s.connects) ∷ after)
      × (no_put after ≡ true)
unfolding update_round no_put is_put
round-put s = (
  s.calls ++ renew ∷ [],
  if s.registered then update_ttl s.service_id ∷ [] else [],
  sym (append_assoc s.calls (renew ∷ []) _),
  ground arith,
)

-- After each round of the service's goroutine a client that asks for the number of connections, at
-- the address and port that the service registers, gets the number that the service has counted, on
-- any store that answers a key by what was put there last.
pub get_connects-update_round :
    (st : Store) (hostname : Bytes) (s : Service)
    → s.connects < 2 ^ 64
    → get_connects
        (st.get (update_round s).calls)
        (registration hostname s).address
        (registration hostname s).port
      ≡ ok s.connects
unfolding registration get_connects read_answer
get_connects-update_round st hostname s h =
    let (before, after, calls, quiet) = round-put s in
    let key = connects_key (address s) s.service_port in
    let found : st.get (update_round s).calls key ≡ pair (put_uint64 s.connects) =
      ap (λ cs. st.get cs key) calls ∙ st.get-put before after key (put_uint64 s.connects) quiet in
    ap read_answer found ∙ read-put s.connects h

set_options-kept :
    (os : List ServiceOption) (s : Service)
    → ((set_options os s).service_host ≡ s.service_host)
      × ((set_options os s).service_port ≡ s.service_port)
      × ((set_options os s).registered ≡ s.registered)
      × ((set_options os s).connects ≡ s.connects)
      × ((set_options os s).calls ≡ s.calls)
unfolding set_options set_option
set_options-kept [] s = (refl, refl, refl, refl, refl)
set_options-kept (with_ttl ttl ∷ os) s = set_options-kept os (record s { ttl = ttl })
set_options-kept (with_interval i ∷ os) s = set_options-kept os (record s { interval = i })
set_options-kept (with_service_ip ip ∷ os) s = set_options-kept os (record s { service_ip = ip })

identify-address :
    (host : Bytes) (v s : Service)
    → v.service_host ≡ host
    → identify host v ≡ ok s
    → (s.service_id ≡ id_of (address s) s.service_port)
      × (s.service_port ≡ v.service_port)
      × (s.registered ≡ v.registered)
      × (s.connects ≡ v.connects)
      × (s.calls ≡ v.calls)
unfolding identify address
identify-address host v s same e = elim (Bool-cases (bytes_eq host any_host)) [
  | inl any ↦ elim (Bool-cases (bytes_eq v.service_ip [])) [
    | inl none_given ↦ absurd (ground arith)
    | inr given ↦
        let f : ok (record v { service_id = id_of v.service_ip v.service_port }) ≡ ok s =
          ground arith in
        rw⁻¹ (ok-injective f) (rw (same, any, given) (refl, refl, refl, refl, refl))
  ]
  | inr one ↦
      let f : ok (record v { service_id = id_of host v.service_port }) ≡ ok s = ground arith in
      rw⁻¹ (ok-injective f) (rw (same, one) (refl, refl, refl, refl, refl))
]

-- A new service is known to consul by the address at which it registers: its id is made of the name,
-- that address and the port, which is the given one. It is not registered, counts no connection and
-- has called nothing.
pub new_service-registration :
    (host hostname : Bytes) (port : ℕ) (opts : List ServiceOption) (s : Service)
    → new_service host port opts ≡ ok s
    → ((registration hostname s).id
        ≡ id_of (registration hostname s).address (registration hostname s).port)
      × ((registration hostname s).port ≡ port)
      × (s.registered ≡ false)
      × (s.connects ≡ 0)
      × (s.calls ≡ [])
unfolding new_service registration initial
new_service-registration host hostname port opts s e =
    let (kept, port', registered, connects, calls) = set_options-kept opts (initial host port) in
    let (id, p, r, c, k) = identify-address host (set_options opts (initial host port)) s kept e in
    (id, p ∙ port', r ∙ registered, c ∙ connects, k ∙ calls)

-- A service that listens on every address and is given no address of its own panics.
pub new_service-panic :
    (port ttl interval : ℕ)
    → (new_service any_host port [] ≡ panic)
      × (new_service any_host port (with_ttl ttl ∷ with_interval interval ∷ []) ≡ panic)
unfolding new_service set_options set_option identify initial
new_service-panic port ttl interval = (refl, refl)
