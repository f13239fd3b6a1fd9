-- ===== src/Time/Overlap.antt =====
-- utility_time.h with overlapping arguments: the effect of each function that writes through a
-- pointer, whichever of its arguments are one object.
use realtime_tests.Prelude.{
  ℕ, ◌<◌, ◌*◌, ◌+◌, ◌-◌, long_half, zero, suc, ◌≡◌, refl, fun_ext, some, Option, arith, add_long,
  sub_long,
}
use realtime_tests.Time.{
  IsNormal, to_ns, Timespec, UtilityTime, timespec, plus, minus, billion, combined_ns_in_s,
  combined_ns_leftover,
}
use realtime_tests.Time.Store.{Ptr, Heap, update, put, load, store, set_sec, set_nsec}
use realtime_tests.Time.Maintain.{utility_time_zero_t}
use realtime_tests.Time.Convert.{utility_time_to_utility_time}
use realtime_tests.Time.Exact.{times, times_exact, plus_exact, minus_exact}
use realtime_tests.Time.Convert.{set_fields}
use realtime_tests.Time.Arith.{
  mul_loop, utility_time_mul, utility_time_add, sub_borrow, sub_plain, utility_time_sub,
}

pub update-update :
    (f : Ptr → Option UtilityTime) (p : Ptr) (o o' : Option UtilityTime)
    → update (update f p o) p o' ≡ update f p o'
update-update f p o o' = fun_ext λ q. ground arith

pub put-put : (h : Heap) (p : Ptr) (o o' : Option UtilityTime) → put (put h p o) p o' ≡ put h p o'
put-put h p o o' = λ i. record h { cell = update-update h.cell p o o' i }

abbrev pub with_t : UtilityTime → Timespec → UtilityTime
with_t a v = record a { t = v }

pub load_lem : (h : Heap) (p : Ptr) {a : UtilityTime} → h.cell p ≡ some a → load p h ≡ some (a, h)
unfolding load
load_lem h p e = rw e

pub set_sec_lem :
    (h : Heap) (p : Ptr) (v : ℕ) {a : UtilityTime}
    → h.cell p ≡ some a
    → set_sec p v h ≡ some (tt, put h p (some (with_t a (timespec v a.t.tv_nsec))))
unfolding set_sec load store
set_sec_lem h p v e = ground arith

pub set_nsec_lem :
    (h : Heap) (p : Ptr) (v : ℕ) {a : UtilityTime}
    → h.cell p ≡ some a
    → set_nsec p v h ≡ some (tt, put h p (some (with_t a (timespec a.t.tv_sec v))))
unfolding set_nsec load store
set_nsec_lem h p v e = ground arith

-- Two member writes in a row leave both members.
pub set_fields_lem :
    (h : Heap) (p : Ptr) (v : Timespec) {a : UtilityTime}
    → h.cell p ≡ some a
    → set_fields p v h ≡ some (tt, put h p (some (with_t a v)))
unfolding set_fields set_sec set_nsec load store
set_fields_lem h p v {a} e =
    ground
      (arith, put-put h p (some (with_t a (timespec v.tv_sec a.t.tv_nsec))) (some (with_t a v)))

-- `utility_time_add` leaves the sum of what the operands held before the call in the result, and
-- changes nothing else, whichever of its three arguments overlap.
pub utility_time_add_lem :
    (h : Heap) (p q r : Ptr) {a b c : UtilityTime}
    → h.cell p ≡ some a
    → h.cell q ≡ some b
    → h.cell r ≡ some c
    → utility_time_add p q r h ≡ some (tt, put h r (some (with_t c (plus a.t b.t))))
unfolding utility_time_add set_sec set_nsec load store plus combined_ns_in_s combined_ns_leftover
utility_time_add_lem h p q r {a} {b} {c} ea eb ec = ground (
  arith,
  put-put h r (some (with_t c (timespec (plus a.t b.t).tv_sec c.t.tv_nsec)))
      (some (with_t c (plus a.t b.t))),
)

zero_t_lem :
    (h : Heap) (r : Ptr) {c : UtilityTime}
    → h.cell r ≡ some c
    → utility_time_zero_t r h ≡ some (tt, put h r (some (with_t c (timespec 0 0))))
unfolding utility_time_zero_t load store
zero_t_lem h r e = ground arith

module _ (h : Heap) (p q r : Ptr) {a b c : UtilityTime} (ea : h.cell p ≡ some a)
    (eb : h.cell q ≡ some b) (ec : h.cell r ≡ some c) where
  sub_borrow_lem :
      (v : Timespec)
      → v
        ≡ timespec
            (sub_long (sub_long a.t.tv_sec 1) b.t.tv_sec)
            (sub_long (add_long billion a.t.tv_nsec) b.t.tv_nsec)
      → sub_borrow p q r h ≡ some (tt, put h r (some (with_t c v)))
  unfolding sub_borrow set_sec set_nsec load store
  sub_borrow_lem v ev =
      ground
        (arith, put-put h r (some (with_t c (timespec v.tv_sec c.t.tv_nsec))) (some (with_t c v)))

  sub_plain_lem :
      (v : Timespec)
      → v ≡ timespec (sub_long a.t.tv_sec b.t.tv_sec) (sub_long a.t.tv_nsec b.t.tv_nsec)
      → sub_plain p q r h ≡ some (tt, put h r (some (with_t c v)))
  unfolding sub_plain set_sec set_nsec load store
  sub_plain_lem v ev =
      ground
        (arith, put-put h r (some (with_t c (timespec v.tv_sec c.t.tv_nsec))) (some (with_t c v)))

  -- `utility_time_sub` leaves the truncated difference of what the operands held before the call in
  -- the result, and changes nothing else, whichever of its three arguments overlap.
  pub utility_time_sub_lem :
      utility_time_sub p q r h ≡ some (tt, put h r (some (with_t c (minus a b))))
  unfolding utility_time_sub load minus
  utility_time_sub_lem = ground (
    arith,
    zero_t_lem h r ec,
    sub_borrow_lem
        (timespec (sub_long (sub_long a.t.tv_sec 1) b.t.tv_sec)
          (sub_long (add_long billion a.t.tv_nsec) b.t.tv_nsec))
        refl,
    sub_plain_lem (timespec (sub_long a.t.tv_sec b.t.tv_sec) (sub_long a.t.tv_nsec b.t.tv_nsec))
        refl,
  )

pub utility_time_to_utility_time_lem :
    (h : Heap) (p r : Ptr) {a c : UtilityTime}
    → h.cell p ≡ some a
    → h.cell r ≡ some c
    → utility_time_to_utility_time p r h ≡ some (tt, put h r (some (with_t c a.t)))
unfolding utility_time_to_utility_time set_sec set_nsec load store
utility_time_to_utility_time_lem h p r {a} {c} ea ec =
    ground
      (arith, put-put h r (some (with_t c (timespec a.t.tv_sec c.t.tv_nsec))) (some (with_t c a.t)))

mul_loop_lem :
    (h : Heap) (p : Ptr) {a : UtilityTime}
    → h.cell p ≡ some a
    → (n : ℕ) (acc : Timespec) → mul_loop n acc p h ≡ some (times n acc a.t, h)
unfolding mul_loop times load
mul_loop_lem h p e zero acc = refl
mul_loop_lem h p {a} e (suc n) acc = ground (arith, mul_loop_lem h p e n (plus acc a.t))

-- `utility_time_mul` leaves what `n` additions of the operand to zero give, also onto the operand.
pub utility_time_mul_lem :
    (h : Heap) (p r : Ptr) (n : ℕ) {a c : UtilityTime}
    → h.cell p ≡ some a
    → h.cell r ≡ some c
    → utility_time_mul p n r h ≡ some (tt, put h r (some (with_t c (times n (timespec 0 0) a.t))))
unfolding utility_time_mul
utility_time_mul_lem h p r n {a} ea ec = ground (
  arith,
  mul_loop_lem h p ea n (timespec 0 0),
  set_fields_lem h r (times n (timespec 0 0) a.t) ec,
)

-- After the call the object at `r`, which was `c`, holds a proper time of `n` nanoseconds, its
-- flags are kept, and nothing else has changed.
pub record Leaves (h : Heap) (r : Ptr) (c : UtilityTime) (n : ℕ) (out : Option (Unit {0} × Heap))
    : Type 0 where
  pub value : Timespec
  pub runs : out ≡ some (tt, put h r (some (with_t c value)))
  pub measure : to_ns value ≡ n
  pub normal : IsNormal value

module _ (h : Heap) (p q r : Ptr) {a b c : UtilityTime} (ea : h.cell p ≡ some a)
    (eb : h.cell q ≡ some b) (ec : h.cell r ≡ some c) (na : IsNormal a.t) (nb : IsNormal b.t) where
  -- For live proper operands whose sum fits, also overlapping ones, `utility_time_add` ends
  -- without a fault and leaves a proper time of the sum of their nanoseconds.
  pub utility_time_add_exact :
      to_ns a.t + to_ns b.t < long_half * billion
      → Leaves h r c (to_ns a.t + to_ns b.t) (utility_time_add p q r h)
  utility_time_add_exact fits = record {
    value = plus a.t b.t;
    runs = utility_time_add_lem h p q r ea eb ec;
    measure = (plus_exact a.t b.t na nb fits).0;
    normal = (plus_exact a.t b.t na nb fits).1;
  }

  -- For live proper operands, also overlapping ones, `utility_time_sub` ends without a fault and
  -- leaves a proper time of the difference of their nanoseconds, or zero if that is negative.
  pub utility_time_sub_exact : Leaves h r c (to_ns a.t - to_ns b.t) (utility_time_sub p q r h)
  utility_time_sub_exact = record {
    value = minus a b;
    runs = utility_time_sub_lem h p q r ea eb ec;
    measure = (minus_exact a b na nb).0;
    normal = (minus_exact a b na nb).1;
  }

-- For a live proper operand whose multiple fits, also one that is the result, `utility_time_mul`
-- ends without a fault and leaves a proper time of `n` times its nanoseconds.
pub utility_time_mul_exact :
    (h : Heap) (p r : Ptr) (n : ℕ) {a c : UtilityTime}
    → h.cell p ≡ some a
    → h.cell r ≡ some c
    → IsNormal a.t
    → n * to_ns a.t < long_half * billion
    → Leaves h r c (n * to_ns a.t) (utility_time_mul p n r h)
utility_time_mul_exact h p r n {a} {c} ea ec na fits =
    let (e, normal) = times_exact n (timespec 0 0) a.t (omega arith) na (omega arith) in
    record {
      value = times n (timespec 0 0) a.t;
      runs = utility_time_mul_lem h p r n ea ec;
      measure = omega (arith, e);
      normal = normal;
    }
