-- ===== src/Stack/Sequence.antt =====
-- Any sequence of `stackPush` and `stackPop` calls against the bounded list.
use client_server.Base.{
  ◌≡◌, refl, inl, inr, true, Option, none, some, List, [], ◌∷◌, arith, eq→==, ne→==, length, u16,
  einval, enoent, ok, err, Run, returns, ◌>>=◌,
}
use client_server.Stack.{Stack, push, pop}
use client_server.Stack.Spec.{Op, put, take, Reply, spec_step, spec_run}
use client_server.Stack.Refine.{contents, IsValid, push_lem, pop_lem}

pub step : Option Stack → Op → Run (Reply × Option Stack)
step st (put x) = do (rc, st') ← push st (u16 x); returns ((rc, none), st')
step st take = do (rc, st', out) ← pop st true; returns ((rc, out), st')

pub run : Option Stack → List Op → Run (List Reply)
run st [] = returns []
run st (o ∷ os) = do (r, st') ← step st o; rs ← run st' os; returns (r ∷ rs)

-- One call does what the bounded list does, and leaves a valid stack of the same size.
record Refines (st : Stack) (o : Op) : Type 0 where
  st' : Stack
  reply : Reply
  stepped : step (some st) o ≡ returns (reply, some st')
  spec : spec_step st.size (contents st) o ≡ (reply, contents st')
  size : st'.size ≡ st.size
  valid : IsValid st'

step-Refines : {st : Stack} (o : Op) → IsValid st → Refines st o
unfolding step
step-Refines {st} (put x) v = elim (push_lem (u16 x) v (omega arith)) [
  | inl (full, e) ↦ record {
    st' = st;
    reply = (err einval, none);
    stepped = rw e;
    spec = rw (eq→== (length (contents st)) st.size full);
    size = refl;
    valid = v;
  }
  | inr (st', room, e, p) ↦ record {
    st' = st';
    reply = (ok, none);
    stepped = rw e;
    spec = rw (ne→== (length (contents st)) st.size (omega (arith, room)), p.top);
    size = p.size;
    valid = p.valid;
  }
]
step-Refines {st} take v = elim (pop_lem v) [
  | inl (empty, e) ↦ record {
    st' = st;
    reply = (err enoent, none);
    stepped = rw e;
    spec = rw empty;
    size = refl;
    valid = v;
  }
  | inr (x, st', e, p) ↦ record {
    st' = st';
    reply = (ok, some x);
    stepped = rw e;
    spec = rw p.top;
    size = p.size;
    valid = p.valid;
  }
]

-- No sequence of calls makes an access out of bounds or tells a valid stack from the bounded list
-- of its values.
pub run_refines :
    (os : List Op) {st : Stack}
    → IsValid st
    → run (some st) os ≡ returns (spec_run st.size (contents st) os)
unfolding run spec_run
run_refines [] v = refl
run_refines (o ∷ os) {st} v =
    let r = step-Refines o v in rw (r.stepped, run_refines os r.valid, r.spec, r.size)
