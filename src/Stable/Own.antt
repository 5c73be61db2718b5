-- ===== src/Stable/Own.antt =====
-- What a session does to itself and to files: its output, c/src/session.c and c/src/stanza.c. The
-- proofs need less than a stable predicate: only changes of this one session.
use jabber.Base.{ℕ, ◌≡◌, refl, Bool, true, false, List, Text, length, ltb, ◌==◌, if_both}
use jabber.Xml.{Node}
use jabber.World.{
  Session, World, Env, WriteResult, wrote, again, failed, pure, modify, change, next_call,
}
use jabber.World.Keeps.{
  Keeps, Keeps-option, Keeps-pure, Keeps-bind, Keeps-load, Keeps-if, keeps_rules,
}
use jabber.Output.{
  set_pollout, append_out, session_write, session_write_str, finish_write, session_flush,
  stanza_serialize, stanza_send, stanza_send_error, max_clients,
}
use jabber.Stable.{IsStable, IsIo, SameTable, SameOwner}

-- The change leaves the session its place and its owner, and the parser where it is.
pub record OwnChange (s t : Session) : Type 0 where
  pub owner : SameOwner s t
  pub parsing : s.in_xml_parse ≡ t.in_xml_parse

pub record IsOwn (p : ℕ) (P : World → Type 0) : Type 0 where
  pub keeps_own :
      (f : Session → Session) → ((s : Session) → OwnChange (f s) s) → Keeps P (modify p f)
  pub keeps_files : (g : World → World) → IsIo g → Keeps P (change g)
  pub keeps_number : Keeps P next_call

pub stable-IsOwn : (P : World → Type 0) → IsStable P → (p : ℕ) → IsOwn p P
stable-IsOwn P S p = record {
  keeps_own = λ f h. S.keeps_modify p f (λ s. (h s).owner);
  keeps_files = S.keeps_io;
  keeps_number = S.keeps_call;
}

set_pollout-IsIo : (i : ℕ) (b : Bool) → IsIo (set_pollout i b)
unfolding set_pollout
set_pollout-IsIo i b w =
    if_both (λ v. SameTable v w) (ltb i max_clients) _ _
      (record { heap = refl; next_address = refl; sessions = refl; nfds = refl })
      (record { heap = refl; next_address = refl; sessions = refl; nfds = refl })

module _ (P : World → Type 0) (p : ℕ) (S : IsOwn p P) where
  open S use {keeps_own, keeps_files, keeps_number}

  pub own_write-Keeps : (bytes : List ℕ) → Keeps P (session_write p bytes)
  unfolding session_write append_out
  own_write-Keeps bytes = search (keeps_rules, keeps_own, keeps_files, set_pollout-IsIo) depth 10

  pub own_write_str-Keeps : (str : Text) → Keeps P (session_write_str p str)
  unfolding session_write_str
  own_write_str-Keeps str = own_write-Keeps str

  finish_write-Keeps : (s : Session) (r : WriteResult) → Keeps P (finish_write p s r)
  unfolding finish_write
  finish_write-Keeps s (wrote n) =
      search (keeps_rules, keeps_own, keeps_files, set_pollout-IsIo) depth 10
  finish_write-Keeps s again = Keeps-pure true
  finish_write-Keeps s failed = Keeps-pure false

  module _ (e : Env) where
    pub own_flush-Keeps : Keeps P (session_flush e p)
    unfolding session_flush
    own_flush-Keeps = Keeps-bind _ _ (Keeps-load p) (λ s.
        Keeps-if (length s.write_buf == 0) _ _ (Keeps-pure true)
          (Keeps-bind _ _ keeps_number (λ n. finish_write-Keeps s (e.write_result n))))

    pub own_send-Keeps : (node : Node) → Keeps P (stanza_send e p node)
    unfolding stanza_send
    own_send-Keeps node =
        Keeps-option (stanza_serialize e node) (pure tt) _ (Keeps-pure tt)
          (λ bytes. own_write-Keeps bytes)

    pub own_send_error-Keeps : (n : Node) (t c : Text) → Keeps P (stanza_send_error e p n t c)
    unfolding stanza_send_error
    own_send_error-Keeps n t c = search (keeps_rules, own_send-Keeps)
