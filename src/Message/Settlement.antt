-- ===== src/Message/Settlement.antt =====
-- How often a delivery is settled, whichever calls on the channel go through.
use msa_tuto_server.Base.{
  ℕ, suc, ◌+◌, ◌≡◌, refl, ◌∙◌, Bool, true, false, ◌||◌, List, [], ◌∷◌, ◌++◌, map, length, All, ltb,
  if◌then◌else◌, arith,
}
use msa_tuto_server.Http.{Result, ok, err}
use msa_tuto_server.Message.{
  Config, Channel, Message, Action, ack, reject, wait, publish, retry_count_of, acknowledge_message,
  settle, intercept, intercept_all,
}

-- Does the action settle the delivery?
abbrev pub is_settlement : Action → Bool
is_settlement (ack m) = true
is_settlement (reject m requeue) = true
is_settlement (wait t) = false
is_settlement (publish q m) = false

abbrev pub settlements : List Action → ℕ
settlements [] = 0
settlements (a ∷ as') = let rest = settlements as' in if is_settlement a then suc rest else rest

settlements-append : (l k : List Action) → settlements (l ++ k) ≡ settlements l + settlements k
settlements-append [] k = omega arith
settlements-append (ack m ∷ l) k = omega (arith, settlements-append l k)
settlements-append (reject m r ∷ l) k = omega (arith, settlements-append l k)
settlements-append (wait t ∷ l) k = settlements-append l k
settlements-append (publish q m ∷ l) k = settlements-append l k

abbrev pub sum : List ℕ → ℕ
sum [] = 0
sum (n ∷ ns) = n + sum ns

-- The first attempt to acknowledge goes through, and so does the rejection.
pub record IsWorking (channel : Channel) : Type 0 where
  pub acks : channel.ack_works 0 ≡ true
  pub rejects : channel.reject_works ≡ true

-- Does one of the three attempts to acknowledge go through?
abbrev pub is_acked : Channel → Bool
is_acked channel = channel.ack_works 0 || (channel.ack_works 1 || channel.ack_works 2)

abbrev pub once_if : Bool → ℕ
once_if true = 1
once_if false = 0

-- How often one interceptor should settle a delivery.
abbrev pub due_settlements : {A : Type 0} → Config → Channel → Message → Result A → ℕ
due_settlements config channel m (ok a) = if config.no_ack then 0 else once_if (is_acked channel)
due_settlements config channel m (err e) =
    if config.no_ack
    then 0
    else if ltb (retry_count_of m) config.max_retries
    then once_if channel.reject_works
    else once_if (is_acked channel)

module _ (config : Config) (channel : Channel) (m : Message) where
  acknowledged :
      settlements (acknowledge_message config channel m 0 2).0 ≡ once_if (is_acked channel)
  unfolding acknowledge_message
  acknowledged = ground arith

module _ {A : Type 0} (config : Config) (channel : Channel) (m : Message) where
  settle-settlements :
      (r : Result A) → settlements (settle config channel m r) ≡ due_settlements config channel m r
  unfolding settle
  settle-settlements (ok a) = ground (arith, acknowledged config channel m)
  settle-settlements (err e) = ground (arith, acknowledged config channel m)

  due_one :
      config.no_ack ≡ false
      → IsWorking channel
      → (r : Result A) → due_settlements config channel m r ≡ 1
  due_one acks works (ok a) = ground (arith, works.acks)
  due_one acks works (err e) = ground (arith, works.acks, works.rejects)

module _ {A : Type 0} (config : Config) (m : Message) (r : Result A) where
  pub intercept_all-due_settlements :
      (channels : List Channel)
      → settlements (intercept_all config channels m r)
        ≡ sum (map (λ channel. due_settlements config channel m r) channels)
  unfolding intercept_all intercept
  intercept_all-due_settlements [] = refl
  intercept_all-due_settlements (channel ∷ channels) =
      settlements-append (settle config channel m r) (intercept_all config channels m r)
      ∙ omega (arith, settle-settlements config channel m r, intercept_all-due_settlements channels)

  due_once :
      config.no_ack ≡ false
      → (channels : List Channel) → All IsWorking channels
      → sum (map (λ channel. due_settlements config channel m r) channels) ≡ length channels
  due_once acks [] works = refl
  due_once acks (channel ∷ channels) works =
      omega (arith, due_one config channel m acks works.0 r, due_once acks channels works.1)

  -- With acknowledgement by hand and calls that work, each interceptor settles the delivery.
  pub intercept_all-settlements :
      (channels : List Channel)
      → config.no_ack ≡ false
      → All IsWorking channels
      → settlements (intercept_all config channels m r) ≡ length channels
  intercept_all-settlements channels acks works =
      intercept_all-due_settlements channels ∙ due_once acks channels works
