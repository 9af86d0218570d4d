-- ===== src/Election/Topic/Replay.antt =====
-- What the replay of `Listen` in election/topic.go hands to a new listener.
use falak.Prelude.{
  ℕ, zero, suc, ◌≤◌, ◌≡◌, refl, ◌∙◌, sym, ap, false, List, [], ◌∷◌, ◌++◌, length, take, string_eq,
  nat_eq, pair_eq, ◌==◌, ltb, if◌then◌else◌, arith,
}
use falak.Election.Types.{Claim}
use falak.Election.Topic.{
  Message, claim, failure, Listener, BufferedMessage, MessageKey, ClusterTopic, deliver, key_of,
  dispatch, replay,
}

unfoldable pub dispatch_all : ClusterTopic → List BufferedMessage → ClusterTopic
dispatch_all t [] = t
dispatch_all t (b ∷ bs) = dispatch_all (dispatch t b.received_at b.message) bs

-- The messages of one key, in order, and the claims among messages.
unfoldable pub of_key : MessageKey → List BufferedMessage → List BufferedMessage
of_key key [] = []
of_key key (b ∷ bs) = let rest = of_key key bs in if key_of b.message == key then b ∷ rest else rest

pub claims_in : List BufferedMessage → List Claim
claims_in [] = []
claims_in (b ∷ bs) =
    let rest = claims_in bs in elim b.message [ claim c ↦ c ∷ rest | failure f ↦ rest ]

pub append-nil : (bs : List BufferedMessage) → bs ++ [] ≡ bs
append-nil [] = refl
append-nil (b ∷ bs) = ap (λ cs. b ∷ cs) (append-nil bs)

pub append_assoc : (ks bs cs : List BufferedMessage) → (ks ++ bs) ++ cs ≡ ks ++ (bs ++ cs)
append_assoc [] bs cs = refl
append_assoc (k ∷ ks) bs cs = ap (λ ds. k ∷ ds) (append_assoc ks bs cs)

pub of_key-cons :
    (key : MessageKey) (b : BufferedMessage) (bs : List BufferedMessage)
    → of_key key (b ∷ bs) ≡ of_key key (b ∷ []) ++ of_key key bs
unfolding of_key
of_key-cons key b bs = ground arith

pub of_key-append :
    (key : MessageKey) (bs cs : List BufferedMessage)
    → of_key key (bs ++ cs) ≡ of_key key bs ++ of_key key cs
unfolding of_key
of_key-append key [] cs = refl
of_key-append key (b ∷ bs) cs = ground (arith, of_key-append key bs cs)

pub replay-append :
    (l : Listener) (bs cs : List BufferedMessage) → replay l (bs ++ cs) ≡ replay (replay l bs) cs
unfolding replay
replay-append l [] cs = refl
replay-append l (b ∷ bs) cs = replay-append (deliver l b.message) bs cs

take-snoc :
    (n : ℕ) (cs ds : List Claim) (c : Claim)
    → length cs ≤ n
    → take n (cs ++ c ∷ ds)
      ≡ (if ltb (length cs) n then take n ((cs ++ c ∷ []) ++ ds) else take n (cs ++ ds))
take-snoc zero [] ds c h = refl
take-snoc (suc n) [] ds c h = ground arith
take-snoc zero (d ∷ cs) ds c h = ground arith
take-snoc (suc n) (d ∷ cs) ds c h = ground (arith, take-snoc n cs ds c)

take-short : (n : ℕ) (cs : List Claim) → length cs ≤ n → take n (cs ++ []) ≡ cs
take-short zero [] h = refl
take-short (suc n) [] h = refl
take-short zero (c ∷ cs) h = ground arith
take-short (suc n) (c ∷ cs) h = ground (arith, take-short n cs)

-- A listener that can take claims: open, and not over its capacity.
abbrev pub Open : Listener → Type 0
Open l = (l.closed ≡ false) × (length l.claims ≤ l.capacity)

length-snoc : (cs : List Claim) (c : Claim) → length (cs ++ c ∷ []) ≡ suc (length cs)
length-snoc [] c = refl
length-snoc (d ∷ cs) c = omega (arith, length-snoc cs c)

deliver-Open :
    (l : Listener) (msg : Message)
    → Open l
    → Open (deliver l msg) × ((deliver l msg).capacity ≡ l.capacity)
unfolding deliver
deliver-Open l (claim c) h = ground (arith, length-snoc l.claims c)
deliver-Open l (failure f) h = ground arith

pub replay-claims :
    (l : Listener) (bs : List BufferedMessage)
    → Open l
    → (replay l bs).claims ≡ take l.capacity (l.claims ++ claims_in bs)
unfolding replay claims_in
replay-claims l [] (o, h) = sym (take-short l.capacity l.claims h)
replay-claims l (b ∷ bs) h =
    let (h', cap) = deliver-Open l b.message h in
    replay-claims (deliver l b.message) bs h'
    ∙ ap (λ n. take n ((deliver l b.message).claims ++ claims_in bs)) cap
    ∙ sent b.message
  where
    sent :
        (msg : Message)
        → take l.capacity ((deliver l msg).claims ++ claims_in bs)
          ≡ take l.capacity
              (l.claims ++ elim msg [ claim c ↦ c ∷ claims_in bs | failure f ↦ claims_in bs ])
    sent (claim c) = ground (arith, take-snoc l.capacity l.claims (claims_in bs) c h.1)
    sent (failure f) = ground arith
