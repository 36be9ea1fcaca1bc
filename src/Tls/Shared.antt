-- ===== src/Tls/Shared.antt =====
-- tls_context(): the context that every caller gets, whoever creates it.
use slick_net.Prelude.{
  ℕ, ◌+◌, ◌-◌, ◌≤◌, ◌≡◌, refl, sym, subst, List, [], ◌∷◌, ◌++◌, Option, none, some, arith,
}

-- tls_context_, the callers that are creating a context, those that have created one and are about to exchange it,
-- and what has been returned so far. A context is a number, in the order of creation.
pub record Shared : Type 0 where
  pub slot : Option ℕ
  pub creating : ℕ
  pub created : List ℕ
  pub contexts : ℕ
  pub returned : List ℕ

abbrev pub at_load : Shared
at_load = record { slot = none; creating = 0; created = []; contexts = 0; returned = [] }

-- The load: the context is returned, or the caller creates one.
unfoldable pub load_from : Option ℕ → Shared → Shared
load_from none s = record s { creating = s.creating + 1 }
load_from (some c) s = record s { returned = c ∷ s.returned }

unfoldable pub load : Shared → Shared
unfolding load_from
load s = load_from s.slot s

-- make_tls_context.
unfoldable pub create : Shared → Shared
create s = record s {
  creating = s.creating - 1;
  created = s.contexts ∷ s.created;
  contexts = s.contexts + 1;
}

-- The compare-exchange of a context that was created: it is stored and returned, or it is discarded and the one that
-- is there is returned.
unfoldable pub exchange_from : Option ℕ → ℕ → List ℕ → Shared → Shared
exchange_from none c rest s = record s { slot = some c; created = rest; returned = c ∷ s.returned }
exchange_from (some d) c rest s = record s { created = rest; returned = d ∷ s.returned }

unfoldable pub exchange : ℕ → List ℕ → Shared → Shared
unfolding exchange_from
exchange c rest s = exchange_from s.slot c rest s

pub data Step (s : Shared) : Shared → Type 0 where
  loads : Step s (load s)
  creates : 1 ≤ s.creating → Step s (create s)
  exchanges :
      (c : ℕ) (before after : List ℕ)
      → s.created ≡ before ++ c ∷ after
      → Step s (exchange c (before ++ after) s)

pub data Reach : Shared → Type 0 where
  start : Reach at_load
  next : {s t : Shared} → Reach s → Step s t → Reach t

-- Everything in a list is one thing.
abbrev pub AreAll : Option ℕ → List ℕ → Type 0
AreAll o [] = Unit {0}
AreAll o (c ∷ cs) = (o ≡ some c) × AreAll o cs

AreAll-none : (c : ℕ) (cs : List ℕ) → AreAll none cs → AreAll (some c) cs
AreAll-none c [] h = tt
AreAll-none c (d ∷ cs) h = ground (arith, h.0)

load_from-AreAll :
    (o : Option ℕ) (s : Shared)
    → s.slot ≡ o
    → AreAll o s.returned
    → AreAll (load_from o s).slot (load_from o s).returned
unfolding load_from
load_from-AreAll none s e h = subst (λ o. AreAll o s.returned) (sym e) h
load_from-AreAll (some c) s e h = (e, subst (λ o. AreAll o s.returned) (sym e) h)

exchange_from-AreAll :
    (o : Option ℕ) (c : ℕ) (rest : List ℕ) (s : Shared)
    → s.slot ≡ o
    → AreAll o s.returned
    → AreAll (exchange_from o c rest s).slot (exchange_from o c rest s).returned
unfolding exchange_from
exchange_from-AreAll none c rest s e h = (refl, AreAll-none c s.returned h)
exchange_from-AreAll (some d) c rest s e h = (e, subst (λ o. AreAll o s.returned) (sym e) h)

Step-AreAll : {s t : Shared} → Step s t → AreAll s.slot s.returned → AreAll t.slot t.returned
unfolding load exchange create
Step-AreAll {s} loads h = load_from-AreAll s.slot s refl h
Step-AreAll {s} (creates p) h = h
Step-AreAll {s} (exchanges c before after e) h =
    exchange_from-AreAll s.slot c (before ++ after) s refl h

-- All callers of tls_context(), whatever their interleaving, get one context, and it is the one that is stored.
pub one_context : {s : Shared} → Reach s → AreAll s.slot s.returned
one_context start = tt
one_context (next r e) = Step-AreAll e (one_context r)
