-- ===== src/Examples/Memory.antt =====
-- An instance of every parameter, in memory: the world of the examples.
use tenant_deck.Base.{
  ℕ, zero, suc, ◌+◌, String, ◌≡◌, refl, Option, none, some, List, [], ◌∷◌, Result, ok, err, message,
  arith, str_eq, eq_refl, ◌==◌, is_positive, length, if◌then◌else◌, ap,
}
use tenant_deck.Session.Crypto.{Bytes, Aead, Random}
use tenant_deck.Session.Backend.{Reply, value, RedisClient, Backend, redis_backend}
use tenant_deck.Session.Contract.{IsAead, IsRandom, IsKeyValue, IsApart}
use tenant_deck.Capsule.Client.{Outgoing}

-- The keys, a counter from which random bytes come, and the requests that were sent.
pub record Memory : Type 0 where
  pub table : String → Option Bytes
  pub entropy : ℕ
  pub sent : List Outgoing

abbrev pub empty : Memory
empty = record { table = λ _. none; entropy = 1; sent = [] }

abbrev update : (String → Option Bytes) → String → Option Bytes → String → Option Bytes
update f k v j = if str_eq k j then v else f j

abbrev reply_of : Option Bytes → Reply
reply_of (some v) = value v
reply_of none = Reply.nil

abbrev pub memory_client : RedisClient Memory
memory_client = record {
  set = λ k v ttl w.
      if is_positive ttl
      then (ok tt, record w { table = update w.table k (some v) })
      else (err (message "ERR invalid expire time in 'set' command"), w);
  get = λ k w. (reply_of (w.table k), w);
  get_del = λ k w. (reply_of (w.table k), record w { table = update w.table k none });
  del = λ k w. (ok tt, record w { table = update w.table k none });
  ping = λ w. (ok tt, w);
  close = λ w. (ok tt, w);
}

abbrev pub memory : Backend Memory
memory = redis_backend memory_client

abbrev pub repeat : ℕ → ℕ → Bytes
repeat zero b = []
repeat (suc n) b = b ∷ repeat n b

abbrev pub counter : Random Memory
counter = record {
  read_full = λ n w. (ok (repeat n w.entropy), record w { entropy = w.entropy + 1 });
}

length-repeat : (n b : ℕ) → length (repeat n b) ≡ n
length-repeat zero b = refl
length-repeat (suc n) b = ap suc (length-repeat n b)

pub counter-IsRandom : IsRandom counter
counter-IsRandom = record { full = λ n w b h. ground (arith, length-repeat n w.entropy) }

abbrev open_tagged : Bytes → Result Bytes
open_tagged [] = err (message "cipher: message authentication failed")
open_tagged (t ∷ p) = if t == 7 then ok p else err (message "cipher: message authentication failed")

abbrev pub tagging : Aead
tagging = record { nonce_size = 12; seal_with = λ n p. 7 ∷ p; open_with = λ n c. open_tagged c }

open_tagged_sound : (c p : Bytes) → open_tagged c ≡ ok p → c ≡ 7 ∷ p
open_tagged_sound [] p h = ground arith
open_tagged_sound (t ∷ q) p h = ground arith

pub tagging-IsAead : IsAead tagging
tagging-IsAead = record { opens = λ n p. refl; authentic = λ n c p h. open_tagged_sound c p h }

pub get_lem : (k : String) (w : Memory) (v : Bytes) → (memory.get k w).0 ≡ ok v → w.table k ≡ some v
unfolding redis_backend
get_lem k w v h = ground arith

unfoldable pub memory-IsKeyValue : IsKeyValue memory
unfolding redis_backend
memory-IsKeyValue = record {
  view = λ w k. w.table k;
  get_ok = λ k w v h. get_lem k w v h;
  get_err = λ k w v e there h. ground arith;
  get_keeps = λ k j w. refl;
  set_ok = λ k j v ttl w positive h. ground arith;
  set_frame = λ k j v ttl w ne. ground arith;
  set_one = λ k v ttl w. ground (arith, eq_refl k);
  del_ok = λ k j w h. refl;
  del_drops = λ k j w. ground arith;
  get_del_ok = λ k w v h. ground (arith, eq_refl k);
  get_del_drops = λ k j w. ground arith;
}

pub memory-IsApart : IsApart memory counter memory-IsKeyValue
unfolding memory-IsKeyValue
memory-IsApart = record { read_keeps = λ n j w. refl }
