-- ===== src/Presence/Frame.antt =====
-- What a change of one session's roster leaves alone: the frame of the subscription handlers,
-- c/src/presence.c.
use jabber.Base.{ℕ, ◌≢◌, ◌≡◌, refl, ◌∙◌, Option, some, List, Text, codes, if◌then◌else◌}
use jabber.World.{Roster, Session, World, Env, modify, update_text}
use jabber.World.Keeps.{Ends}
use jabber.World.Steps.{put, put_self, put_other, Runs-modify, Runs-Ends}
use jabber.Disk.{user_path, roster_document}
use jabber.RosterIq.{set_roster}

abbrev pub Files : Type 0
Files = Text → Option (List ℕ)

-- The files after a roster of a user was saved, where the system lets it be.
unfoldable pub stored : Env → Text → Roster → Files → Files
unfolding update_text
stored e user r fs =
    let path : Text = user_path e 1280 user (codes "roster.xml") in
    if e.writable path
    then update_text fs path
        (some (e.xml.save_root (roster_document e (e.xml.new_node (codes "roster")) r.items)))
    else fs

-- The session `p`, which was `s`, has the roster `r` and its JID; the other sessions and the table
-- are as before, and the files are `fs`.
pub record Edited (p : ℕ) (s : Session) (w : World) (r : Roster) (fs : Files) (v : World)
    : Type 0 where
  pub now : Session
  pub at : v.heap p ≡ some now
  pub same_local : now.jid_local ≡ s.jid_local
  pub same_domain : now.jid_domain ≡ s.jid_domain
  pub roster : now.roster ≡ r
  pub others : (q : ℕ) → q ≢ p → v.heap q ≡ w.heap q
  pub sessions : v.sessions ≡ w.sessions
  pub nfds : v.nfds ≡ w.nfds
  pub files : v.files ≡ fs

module _ (p : ℕ) (s : Session) (w : World) where
  -- The state changes beside the session.
  pub again-Edited :
      (r : Roster) (fs fs' : Files) (u v : World)
      → Edited p s w r fs u
      → v.heap ≡ u.heap
      → v.sessions ≡ u.sessions
      → v.nfds ≡ u.nfds
      → v.files ≡ fs'
      → Edited p s w r fs' v
  again-Edited r fs fs' u v t heap sessions nfds files = record {
    now = t.now;
    at = rw heap t.at;
    same_local = t.same_local;
    same_domain = t.same_domain;
    roster = t.roster;
    others = λ q ne. rw heap (t.others q ne);
    sessions = sessions ∙ t.sessions;
    nfds = nfds ∙ t.nfds;
    files = files;
  }

  -- The session changes, but not its JID.
  pub put-Edited :
      (r r' : Roster) (fs : Files) (t : Session) (v : World) (h : Edited p s w r fs v)
      → t.jid_local ≡ h.now.jid_local
      → t.jid_domain ≡ h.now.jid_domain
      → t.roster ≡ r'
      → Edited p s w r' fs (put p t v)
  unfolding put
  put-Edited r r' fs t v h at_local at_domain has = record {
    now = t;
    at = put_self p t v;
    same_local = at_local ∙ h.same_local;
    same_domain = at_domain ∙ h.same_domain;
    roster = has;
    others = λ q ne. put_other p q t v ne ∙ h.others q ne;
    sessions = h.sessions;
    nfds = h.nfds;
    files = h.files;
  }

  pub refl-Edited : w.heap p ≡ some s → Edited p s w s.roster w.files w
  refl-Edited live = record {
    now = s;
    at = live;
    same_local = refl;
    same_domain = refl;
    roster = refl;
    others = λ q ne. refl;
    sessions = refl;
    nfds = refl;
    files = refl;
  }

  pub set_roster-Edited :
      (r r' : Roster) (fs : Files) (v : World)
      → Edited p s w r fs v
      → Ends (Edited p s w r' fs) (modify p (set_roster r') v)
  unfolding set_roster
  set_roster-Edited r r' fs v h =
      Runs-Ends (Edited p s w r' fs) (modify p (set_roster r')) v tt (put p (set_roster r' h.now) v)
        (Runs-modify p h.now (set_roster r') v h.at)
        (put-Edited r r' fs (set_roster r' h.now) v h refl refl refl)
