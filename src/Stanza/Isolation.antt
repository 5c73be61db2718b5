-- ===== src/Stanza/Isolation.antt =====
-- Before authentication a stanza, c/src/stanza.c, reaches no session but its own.
use jabber.Base.{
  ℕ, ◌≡◌, ◌≢◌, refl, ◌∙◌, true, false, Option, none, some, Text, arith, Option-cases, inl, inr,
  if◌then◌else◌,
}
use jabber.Xml.{Node}
use jabber.World.{Session, stream_opened, World, Env, M, load, modify, change, next_call, update}
use jabber.World.Keeps.{Keeps, Post, Keeps-bind, keeps_rules}
use jabber.World.Steps.{Runs-bind, Runs-load, load-stuck}
use jabber.Auth.{logged_in, check_credentials, check_payload, auth_handle_sasl}
use jabber.Teardown.{session_teardown, teardown_or_defer, stream_send_error}
use jabber.Stanza.{is_opened, route_unauthenticated, stanza_route}
use jabber.Stable.{IsIo}
use jabber.Stable.Own.{IsOwn, own_write_str-Keeps, own_flush-Keeps, own_send_error-Keeps}
use jabber.Stable.Registration.{
  own_check_password-Keeps, own_sasl_failure-Keeps, own_register-Keeps,
}

-- The other sessions and the table are as in `old`, and the session is in the parser.
pub record Alone (p : ℕ) (old w : World) : Type 0 where
  pub others : (q : ℕ) → q ≢ p → w.heap q ≡ old.heap q
  pub parsing : (s : Session) → w.heap p ≡ some s → s.in_xml_parse ≡ true
  pub sessions : w.sessions ≡ old.sessions
  pub nfds : w.nfds ≡ old.nfds

module _ (p : ℕ) (old : World) where
  abbrev P : World → Type 0
  P = Alone p old

  changed-Alone :
      (w : World) (s t : Session)
      → P w
      → w.heap p ≡ some s
      → t.in_xml_parse ≡ s.in_xml_parse
      → P (record w { heap = update w.heap p (some t) })
  unfolding update
  changed-Alone w s t h live same = record {
    others = λ q ne. ground (arith, h.others q ne);
    parsing = λ u at. ground (arith, h.parsing s live);
    sessions = h.sessions;
    nfds = h.nfds;
  }

  modify-Alone :
      (f : Session → Session)
      → ((s : Session) → (f s).in_xml_parse ≡ s.in_xml_parse)
      → Keeps P (modify p f)
  unfolding modify
  modify-Alone f h = record {
    at = λ w t. elim (Option-cases (w.heap p)) [
      | inl e ↦ rw (e, modify) tt
      | inr (s, e) ↦ rw (e, modify) (changed-Alone w s (f s) t e (h s))
    ];
  }

  files-Alone : (g : World → World) → IsIo g → Keeps P (change g)
  unfolding change
  files-Alone g h = record {
    at = λ w t. record {
      others = λ q ne. rw (h w).heap (t.others q ne);
      parsing = λ s at. t.parsing s (rw (h w).heap at at);
      sessions = (h w).sessions ∙ t.sessions;
      nfds = (h w).nfds ∙ t.nfds;
    };
  }

  number-Alone : Keeps P next_call
  unfolding next_call
  number-Alone = record {
    at = λ w t. record {
      others = t.others;
      parsing = t.parsing;
      sessions = t.sessions;
      nfds = t.nfds;
    };
  }

  Alone-IsOwn : IsOwn p P
  Alone-IsOwn = record {
    keeps_own = λ f h. modify-Alone f (λ s. (h s).parsing);
    keeps_files = files-Alone;
    keeps_number = number-Alone;
  }

  module _ (e : Env) where
    abbrev deferring : Session → M (Unit {0})
    deferring s =
        if s.in_xml_parse
        then modify p (λ t. record t { teardown_pending = true })
        else session_teardown e p

    -- In the parser a teardown is put off.
    teardown_or_defer-Alone : Keeps P (teardown_or_defer e p)
    unfolding teardown_or_defer
    teardown_or_defer-Alone = record {
      at = λ w t. elim (Option-cases (w.heap p)) [
        | inl x ↦ rw (load-stuck p deferring w x) tt
        | inr (s, x) ↦
            rw (Runs-bind (load p) deferring w w s (Runs-load p s w x), t.parsing s x)
              ((modify-Alone (λ t. record t { teardown_pending = true }) (λ s. refl)).at w t)
      ];
    }

    stream_send_error-Alone : (c : Text) → Keeps P (stream_send_error e p c)
    unfolding stream_send_error
    stream_send_error-Alone c =
        Keeps-bind _ _ (own_write_str-Keeps P p Alone-IsOwn _)
          (λ _. Keeps-bind _ _ (own_flush-Keeps P p Alone-IsOwn e) (λ _. teardown_or_defer-Alone))

    login-Alone : (a : Text) → Keeps P (modify p (logged_in e a))
    unfolding logged_in
    login-Alone a = modify-Alone _ (λ s. refl)

    check_credentials-Alone : (o : Option (Text × Text)) → Keeps P (check_credentials e p o)
    unfolding check_credentials
    check_credentials-Alone none = own_sasl_failure-Keeps P p Alone-IsOwn e _
    check_credentials-Alone (some (a, pw)) =
        search
          (
            keeps_rules,
            modify-Alone,
            login-Alone,
            own_check_password-Keeps P p Alone-IsOwn e,
            own_sasl_failure-Keeps P p Alone-IsOwn e,
            own_write_str-Keeps P p Alone-IsOwn,
          )
          depth 9

    check_payload-Alone : (o : Option Text) → Keeps P (check_payload e p o)
    unfolding check_payload
    check_payload-Alone none = own_sasl_failure-Keeps P p Alone-IsOwn e _
    check_payload-Alone (some b) = check_credentials-Alone _

    auth_handle_sasl-Alone : (n : Node) → Keeps P (auth_handle_sasl e p n)
    unfolding auth_handle_sasl
    auth_handle_sasl-Alone n =
        search (keeps_rules, check_payload-Alone, own_sasl_failure-Keeps P p Alone-IsOwn e)

    route_unauthenticated-Alone : (n : Node) → Keeps P (route_unauthenticated e p n)
    unfolding route_unauthenticated
    route_unauthenticated-Alone n =
        search
          (
            keeps_rules,
            auth_handle_sasl-Alone,
            own_register-Keeps P p Alone-IsOwn e,
            own_send_error-Keeps P p Alone-IsOwn e,
            stream_send_error-Alone,
          )
          depth 7

refl-Alone :
    (p : ℕ) (s : Session) (w : World) → w.heap p ≡ some s → s.in_xml_parse ≡ true → Alone p w w
refl-Alone p s w live parsing = record {
  others = λ q ne. refl;
  parsing = λ u at. ground arith;
  sessions = refl;
  nfds = refl;
}

-- A session that is not authenticated and whose state is that of an open stream reaches no other
-- session, whatever stanza it sends from the parser: unless the handling ends in undefined
-- behaviour, the states, buffers and rosters of the other sessions are as before, and so is the
-- table. Nothing is said of the other states, in which a stanza is routed without that test.
pub stanza_route-Alone :
    (e : Env) (p : ℕ) (stanza : Node) (s : Session) (w : World)
    → w.heap p ≡ some s
    → s.state ≡ stream_opened
    → s.authenticated ≡ false
    → s.in_xml_parse ≡ true
    → Post (Alone p w) (stanza_route e p stanza w)
unfolding stanza_route is_opened
stanza_route-Alone e p stanza s w live opened unknown parsing =
    rw (Runs-bind (load p) _ w w s (Runs-load p s w live), opened, unknown)
      ((route_unauthenticated-Alone p w e stanza).at w (refl-Alone p s w live parsing))
