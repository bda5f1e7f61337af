-- ===== src/Auth/Memory.antt =====
-- A Redis held in memory, which meets the laws.
use msa_tuto_server.Base.{
  ℕ, ◌+◌, ◌*◌, String, ◌≡◌, ◌≢◌, refl, sym, subst, Option, none, some, ◌==◌, eq_iff, eq_refl, leb,
  if◌then◌else◌, arith, Bool-cases, inl, inr,
}
use msa_tuto_server.Http.{Exception, Result, ok, err}
use msa_tuto_server.Auth.Tokens.{Reads, Redis}

-- Each key with its value and the time at which it ends.
abbrev pub Keys : Type 0
Keys = String → Option (String × Option ℕ)

abbrev pub read : ℕ → Option (String × Option ℕ) → Option String
read now none = none
read now (some (v, none)) = some v
read now (some (v, some until)) = if leb until now then none else some v

abbrev pub until : ℕ → Option ℕ → Option ℕ
until now none = none
until now (some ttl) = some (now + ttl * 1000)

abbrev pub put : String → Option (String × Option ℕ) → Keys → Keys
put k e s j = if j == k then e else s j

pub read-until :
    (since now : ℕ) (v : String) (ttl : Option ℕ)
    → Reads v ttl since now (ok (read now (some (v, until since ttl))))
read-until since now v none = Reads.held refl
read-until since now v (some ttl) = elim (Bool-cases (leb (since + ttl * 1000) now)) [
  | inl t ↦ Reads.ended (ground arith) (rw t refl)
  | inr f ↦ Reads.held (rw f refl)
]

pub put_other :
    (now : ℕ) (j k : String) (entry : Option (String × Option ℕ)) (s : Keys)
    → j ≢ k
    → ok (read now (put j entry s k)) ≡ ok (read now (s k))
put_other now j k entry s apart = elim (Bool-cases (k == j)) [
  | inl t ↦ absurd (apart (sym ((eq_iff k j).0 t)))
  | inr f ↦ rw f refl
]

pub put_same :
    (since now : ℕ) (k v : String) (ttl : Option ℕ) (s : Keys)
    → Reads v ttl since now (ok (read now (put k (some (v, until since ttl)) s k)))
put_same since now k v ttl s = rw (eq_refl k) (read-until since now v ttl)

pub read_set :
    (since now : ℕ) (k v : String) (ttl : Option ℕ) (s s' : Keys)
    → ◌≡◌ {A = Result (Unit {0}) × Keys} (ok tt, put k (some (v, until since ttl)) s) (ok tt, s')
    → Reads v ttl since now (ok (read now (s' k)))
read_set since now k v ttl s s' h =
    subst (λ (t : Result (Unit {0}) × Keys). Reads v ttl since now (ok (read now (t.1 k)))) h
      (put_same since now k v ttl s)

pub read_del :
    (now : ℕ) (k : String) (s s' : Keys) (v : String)
    → ◌≡◌ {A = Result (Unit {0}) × Keys} (ok tt, put k none s) (ok tt, s')
    → ok (read now (s' k)) ≢ ok (some v)
read_del now k s s' v h =
    subst (λ (t : Result (Unit {0}) × Keys). ok (read now (t.1 k)) ≢ ok (some v)) h
      (rw (eq_refl k) (λ q. cc q))

pub never_failed :
    {e : Exception} {s s' : Keys} {P : Type 0}
    → ◌≡◌ {A = Result (Unit {0}) × Keys} (ok tt, s) (err e, s')
    → P
never_failed h = absurd (cc h)

abbrev pub keys : Redis Keys
keys = record {
  get = λ now k s. ok (read now (s k));
  set = λ now k v ttl s. (ok tt, put k (some (v, until now ttl)) s);
  set_law = λ since now k v ttl s s' h. read_set since now k v ttl s s' h;
  set_failed_law = λ since now k v ttl s s' e h. never_failed h;
  set_other_law =
      λ since now j k v ttl s apart. put_other now j k (some (v, until since ttl)) s apart;
  del = λ k s. (ok tt, put k none s);
  del_law = λ now j k s apart. put_other now j k none s apart;
  del_same_law = λ now k s s' v h. read_del now k s s' v h;
}

abbrev pub empty : Keys
empty k = none
