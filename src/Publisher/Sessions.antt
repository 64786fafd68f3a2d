-- ===== src/Publisher/Sessions.antt =====
-- cpp/src/zmq_publisher.cpp: what is open when a publisher is bound or connected only while it holds
-- nothing, and when it is bound or connected again.
use pantograph_arc_vision.Common.{some_inj}
use pantograph_arc_vision.Common.{
  ℕ, ◌≡◌, refl, sym, subst, ap, ◌∙◌, Bool, true, false, Option, none, some, List, [], ◌∷◌,
}
use pantograph_arc_vision.Publisher.{Publisher, Answers, attach, close_socket, close_context, close}
use pantograph_arc_vision.Publisher.Handles.{
  attach_to, close_all, call, run_calls, remove_head, attached, attach-attached, IsClosed,
  closed_with,
}

abbrev pub held : Option ℕ → List ℕ
held none = []
held (some h) = h ∷ []

-- Everything that is open is held.
pub record IsTidy (p : Publisher) : Type 0 where
  pub contexts : p.open_contexts ≡ held p.context
  pub sockets : p.open_sockets ≡ held p.socket

-- A publisher that is bound or connected only while it holds nothing.
pub data Session : Publisher → Type 0 where
  started : {p : Publisher} → IsClosed p → p.open_contexts ≡ [] → p.open_sockets ≡ [] → Session p
  attaches :
      {p p' : Publisher} (binds : Bool) (a : Answers) (r : Bool)
      → Session p
      → IsClosed p
      → attach binds a p ≡ some (r, p')
      → Session p'
  closes : {p p' : Publisher} → Session p → close p ≡ some p' → Session p'

attached-IsTidy :
    (binds : Bool) (c s : Option ℕ) (r : Bool) (p : Publisher)
    → IsTidy p
    → IsClosed p
    → IsTidy ((attached binds (record { new_context = c; new_socket = s; succeeds = r }) p).1)
attached-IsTidy binds none s r p t (e, e') = record {
  contexts = t.contexts ∙ ap held e;
  sockets = t.sockets;
}
attached-IsTidy binds (some c) none r p t (e, e') = record {
  contexts = t.contexts ∙ ap held e;
  sockets = t.sockets ∙ ap held e';
}
attached-IsTidy binds (some c) (some s) false p t (e, e') = record {
  contexts = t.contexts ∙ ap held e;
  sockets = t.sockets ∙ ap held e';
}
attached-IsTidy binds (some c) (some s) true p t (e, e') = record {
  contexts = ap (λ hs. c ∷ hs) (t.contexts ∙ ap held e);
  sockets = ap (λ hs. s ∷ hs) (t.sockets ∙ ap held e');
}

-- The publisher after `close`, when all that is open is held.
abbrev pub emptied : Publisher → Publisher
emptied p = record p { context = none; socket = none; open_contexts = []; open_sockets = [] }

close-held :
    (c s : Option ℕ) (b : Bool) (cs ss : List ℕ) (m : ℕ)
    → cs ≡ held c
    → ss ≡ held s
    → let p : Publisher = record {
      context = c;
      socket = s;
      is_bind = b;
      open_contexts = cs;
      open_sockets = ss;
      open_messages = m;
    } in
      close p ≡ some (emptied p)
unfolding close_socket close_context
close-held none none b cs ss m e e' = rw (e, e') refl
close-held none (some s) b cs ss m e e' = rw (e, e', remove_head s []) refl
close-held (some c) none b cs ss m e e' = rw (e, e', remove_head c []) refl
close-held (some c) (some s) b cs ss m e e' = rw (e, e', remove_head s [], remove_head c []) refl

pub close-emptied : (p : Publisher) → IsTidy p → close p ≡ some (emptied p)
close-emptied p t =
    close-held p.context p.socket p.is_bind p.open_contexts p.open_sockets p.open_messages
      t.contexts t.sockets

pub Session-IsTidy : {p : Publisher} → Session p → IsTidy p
Session-IsTidy (started (e, e') n n') = record {
  contexts = n ∙ ap held (sym e);
  sockets = n' ∙ ap held (sym e');
}
Session-IsTidy (attaches {p = p} {p' = p'} binds a r s c e) =
    let same : attached binds a p ≡ (r, p') = some_inj (sym (attach-attached binds a p) ∙ e) in
    subst (λ q. IsTidy q) (ap (λ q. q.1) same)
      (attached-IsTidy binds a.new_context a.new_socket a.succeeds p (Session-IsTidy s) c)
Session-IsTidy (closes {p = p} {p' = p'} s e) =
    let same : emptied p ≡ p' = some_inj (sym (close-emptied p (Session-IsTidy s)) ∙ e) in
    subst (λ q. IsTidy q) same (record { contexts = refl; sockets = refl })

-- A publisher that starts with nothing and is bound or connected only while it holds nothing has open, at
-- any time, just the context and the socket that it holds, also after a call that failed. So the `close`
-- of the destructor leaves nothing open.
pub Session-closes :
    (p : Publisher)
    → Session p
    → IsTidy p
      × (close p ≡ some (emptied p))
      × ((emptied p).open_contexts ≡ [])
      × ((emptied p).open_sockets ≡ [])
Session-closes p s = let t = Session-IsTidy s in (t, close-emptied p t, refl, refl)

-- A publisher with a context and a socket, and nothing else open.
abbrev holding : (c s : ℕ) → Bool → ℕ → Publisher
holding c s b m = record {
  context = some c;
  socket = some s;
  is_bind = b;
  open_contexts = c ∷ [];
  open_sockets = s ∷ [];
  open_messages = m;
}

close-attached_twice :
    (binds : Bool) (c' s' : Option ℕ) (r : Bool) (c s : ℕ) (b : Bool) (m : ℕ)
    → let a : Answers = record { new_context = c'; new_socket = s'; succeeds = r } in
      (p : Publisher) × (close ((attached binds a (holding c s b m)).1) ≡ some p)
      × (p.open_contexts ≡ c ∷ [])
unfolding close_socket close_context
close-attached_twice binds none s' r c s b m =
    (closed_with b (c ∷ []) [] m, rw (remove_head s []) refl, refl)
close-attached_twice binds (some c') none r c s b m =
    (closed_with b (c ∷ []) (s ∷ []) m, refl, refl)
close-attached_twice binds (some c') (some s') false c s b m =
    (closed_with b (c ∷ []) (s ∷ []) m, refl, refl)
close-attached_twice binds (some c') (some s') true c s b m = (
  closed_with binds (c ∷ []) (s ∷ []) m,
  rw (remove_head s' (s ∷ []), remove_head c' (c ∷ [])) refl,
  refl,
)

-- A publisher that has a context and a socket and is bound or connected again: whatever ZeroMQ answers,
-- the first context stays open after the `close` of the destructor.
pub attach_twice :
    (binds : Bool) (a : Answers) (p : Publisher) (c s : ℕ)
    → IsTidy p
    → p.context ≡ some c
    → p.socket ≡ some s
    → (p' : Publisher) × (run_calls (attach_to binds a ∷ close_all ∷ []) p ≡ some p')
      × (p'.open_contexts ≡ c ∷ [])
unfolding run_calls call
attach_twice binds a p c s t e e' =
    let same : p ≡ holding c s p.is_bind p.open_messages = λ i. record p {
      context = e i;
      socket = e' i;
      open_contexts = (t.contexts ∙ ap held e) i;
      open_sockets = (t.sockets ∙ ap held e') i;
    } in
    let (p', closed, left) =
      close-attached_twice binds a.new_context a.new_socket a.succeeds c s p.is_bind
        p.open_messages in
    (p', rw (attach-attached binds a p, same) (rw closed refl), left)
