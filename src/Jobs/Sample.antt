-- ===== src/Jobs/Sample.antt =====
-- A small Redis and small formats for the tests, with what the store's theorems ask of them.
use face_recognition.Prelude.{
  ℕ, ◌+◌, ◌≡◌, ◌≢◌, refl, sym, ap, ◌∙◌, String, Option, none, some, List, [], ◌∷◌, arith, inl, inr,
  string_eq, ◌==◌, Bool-cases, Option-cases, true,
}
use text.Mathlib.TextEquality.{eq_iff}
use face_recognition.Prelude.Sort.{All-map}
use face_recognition.Prelude.Int.{pos, negsuc}
use face_recognition.Prelude.Dict.{Dict, lookup, insert, lookup-insert, lookup-insert_self}
use face_recognition.Prelude.Codes.{codes, is_digit}
use face_recognition.Prelude.Decimal.{print, int_of, int_of-print, print-IsDigits}
use face_recognition.Core.Errors.{Result, ok, raise, fault, value_error}
use face_recognition.Jobs.Commands.{Commands, View, IsRedis, SameAt, first_of, effects}
use face_recognition.Jobs.Redis.{Formats}
use face_recognition.Jobs.Keys.{IsFormats}

pub record Server : Type 0 where
  pub hashes : Dict String (Dict String String)
  pub lists : Dict String (List String)

abbrev or_empty : {A : Type 0} → Option (List A) → List A
or_empty none = []
or_empty (some l) = l

abbrev hash_at : String → Server → Dict String String
hash_at key r = or_empty (lookup key r.hashes)

abbrev list_at : String → Server → List String
list_at key r = or_empty (lookup key r.lists)

abbrev set_all : Dict String String → Dict String String → Dict String String
set_all [] h = h
set_all ((f, v) ∷ m) h = insert f v (set_all m h)

abbrev put_hash : String → Dict String String → Server → Server
put_hash key h r = record r { hashes = insert key h r.hashes }

abbrev increased : String → ℕ → Option String → Server → String → Result (Unit {0}) × Server
increased key n none r f = (ok tt, put_hash key (insert f (print n) (hash_at key r)) r)
increased key n (some v) r f = elim (int_of (codes v)) [
  | none ↦ (raise (fault value_error), r)
  | some i ↦ elim i [
    | pos m ↦ (ok tt, put_hash key (insert f (print (m + n)) (hash_at key r)) r)
    | negsuc m ↦ (raise (fault value_error), r)
  ]
]

abbrev pub small_redis : Commands Server
small_redis = record {
  hset = λ key m r. (ok tt, put_hash key (set_all m (hash_at key r)) r);
  hincrby = λ key f n r. increased key n (lookup f (hash_at key r)) r f;
  hgetall = λ key r. (ok (hash_at key r), r);
  expire = λ key n r. (ok tt, r);
  whole_list = λ key r. (ok (list_at key r), r);
  execute =
      λ key qs r. (ok tt, record r { lists = insert key (effects qs (list_at key r)) r.lists });
}

abbrev pub small_view : View Server
small_view = record { field = λ r key f. lookup f (hash_at key r); items = λ r key. list_at key r }

lookup-set_all :
    (f : String) (m h : Dict String String)
    → lookup f (set_all m h) ≡ first_of (lookup f m) (lookup f h)
unfolding lookup
lookup-set_all f [] h = refl
lookup-set_all f ((g, v) ∷ m) h = elim (Bool-cases (g == f)) [
  | inl same ↦ lookup-insert g f v (set_all m h) ∙ rw same refl
  | inr other ↦ lookup-insert g f v (set_all m h) ∙ rw other (lookup-set_all f m h)
]

lookup-insert_other :
    {A : Type 0} (key j : String) (v : A) (d : Dict String A)
    → key ≢ j
    → lookup j (insert key v d) ≡ lookup j d
lookup-insert_other key j v d other = lookup-insert key j v d ∙ ground (arith, eq_iff key j)

hset_sets :
    (key : String) (h : Dict String String) (r : Server) (f : String)
    → lookup f (hash_at key (put_hash key h r)) ≡ lookup f h
hset_sets key h r f = ap (λ o. lookup f (or_empty o)) (lookup-insert_self key h r.hashes)

put_hash-SameAt :
    (key j : String) (h : Dict String String) (r : Server)
    → key ≢ j
    → SameAt small_view j r (put_hash key h r)
put_hash-SameAt key j h r other =
    (λ f. ap (λ o. lookup f (or_empty o)) (lookup-insert_other key j h r.hashes other), refl)

increased-SameAt :
    (key j f : String) (n : ℕ) (o : Option String) (r : Server)
    → key ≢ j
    → SameAt small_view j r (increased key n o r f).1
increased-SameAt key j f n none r other = put_hash-SameAt key j _ r other
increased-SameAt key j f n (some v) r other = elim (Option-cases (int_of (codes v))) [
  | inl bad ↦ rw (increased, bad) (λ f. refl, refl)
  | inr (pos m, good) ↦ rw (increased, good) (put_hash-SameAt key j _ r other)
  | inr (negsuc m, good) ↦ rw (increased, good) (λ f. refl, refl)
]

pub small_redis-IsRedis : IsRedis small_view small_redis
small_redis-IsRedis = record {
  hset_others = λ key j m r other. put_hash-SameAt key j _ r other;
  hset_sets = λ key m r h. (
    refl,
    h,
    λ f. hset_sets key (set_all m (hash_at key r)) r f ∙ lookup-set_all f m (hash_at key r),
  );
  hincrby_others =
      λ key j f n r other. increased-SameAt key j f n (lookup f (hash_at key r)) r other;
  hincrby_adds = λ key f n v r h e.
      rw (increased, e, int_of-print v)
        (refl, h, λ g. hset_sets key _ r g ∙ lookup-insert f g (print (v + n)) (hash_at key r));
  hgetall_reads = λ key r h. (hash_at key r, refl, λ f. refl);
  hgetall_keeps = λ key j r. (λ f. refl, refl);
  expire_answers = λ key n r. refl;
  expire_keeps = λ key j n r. (λ f. refl, refl);
  whole_list_reads = λ key r h. refl;
  execute_others =
      λ key j qs r other. (λ f. refl, ap or_empty (lookup-insert_other key j _ r.lists other));
  execute_effects = λ key qs r h. (refl, h, ap or_empty (lookup-insert_self key _ r.lists));
}

abbrev pub formats : Formats
formats = record {
  uuid_text = print;
  isoformat = print;
  fromisoformat = λ s. elim (int_of (codes s)) [
    | none ↦ none
    | some i ↦ elim i [ pos n ↦ some n | negsuc n ↦ none ]
  ];
}

print_inj : (m n : ℕ) → print m ≡ print n → m ≡ n
print_inj m n e =
    let same = sym (int_of-print m) ∙ ap (λ s. int_of (codes s)) e ∙ int_of-print n in cc same

print_ne_empty : (n : ℕ) → print n ≢ ""
unfolding int_of
print_ne_empty n e =
    let none_read : int_of (codes "") ≡ some (pos n) = rw e at (int_of-print n) in cc none_read

pub formats-IsFormats : IsFormats formats
formats-IsFormats = record {
  uuid_text_inj = print_inj;
  uuid_text_plain = λ n.
      All-map (λ c. is_digit c ≡ true) (λ c. c ≢ b':') (codes (print n))
        (λ c h e. ground (arith, h, e)) (print-IsDigits n);
  iso_reads = λ t. rw (formats, int_of-print t) refl;
  iso_ne_empty = print_ne_empty;
}
