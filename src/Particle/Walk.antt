-- ===== src/Particle/Walk.antt =====
-- `walk_particledata` looks for a varint in front of the data, which no encoder writes.
use c_spock_bot.Prelude.{ℕ, ◌≡◌, append-nil, arith}
use c_spock_bot.Prelude.{List, [], length, sub_size, IsU32}
use c_spock_bot.Outcome.{ok, err}
use c_spock_bot.Varnum.{varnum_overrun, enc_varint, dec_varint, walk_varint}
use c_spock_bot.Varnum.RoundTrip.{dec_varint-enc_varint, walk_varint-enc_varint, length-enc_varint}
use c_spock_bot.Library.{Library}
use c_spock_bot.Particle.{
  Particle, kind, plain, walk_particledata, walk_particle, enc_kind, enc_particledata, enc_particle,
}

walk_varint-empty : (source : List ℕ) → walk_varint source 0 ≡ err varnum_overrun
unfolding walk_varint
walk_varint-empty source = ground arith

walk_varint-exact :
    (v : ℕ)
    → IsU32 v
    → walk_varint (enc_varint v) (length (enc_varint v)) ≡ ok (length (enc_varint v))
walk_varint-exact v h =
    ground
      (arith, append-nil (enc_varint v), walk_varint-enc_varint v [] (length (enc_varint v)) h tt)

dec_varint-exact : (v : ℕ) → IsU32 v → dec_varint (enc_varint v) ≡ ok (v, [])
dec_varint-exact v h = rw (append-nil (enc_varint v)) at (dec_varint-enc_varint v [] h tt)

walk_type : (t : ℕ) → IsU32 t → walk_particle (enc_varint t) (length (enc_varint t)) ≡ err 0
unfolding walk_particle walk_particledata
walk_type t h =
    let n : ℕ = length (enc_varint t) in
    let none_left : sub_size n n ≡ 0 = omega (arith, length-enc_varint t h) in
    rw (walk_varint-exact t h, dec_varint-exact t h, none_left, walk_varint-empty [])

-- On a buffer that holds exactly the encoding of a particle without data `walk_particle` returns -1.
pub walk_particle_plain :
    (lib : Library) (p : Particle)
    → IsU32 p.type
    → kind p.type ≡ plain
    → walk_particle (enc_particle lib p) (length (enc_particle lib p)) ≡ err 0
unfolding enc_particle enc_particledata enc_kind
walk_particle_plain lib p h e =
    let only_type : enc_particle lib p ≡ enc_varint p.type =
      rw e (append-nil (enc_varint p.type)) in
    rw only_type (walk_type p.type h)
