-- ===== src/Disk.antt =====
-- The files of a user: paths of c/src/user.c and c/src/roster.c, and `roster_load`, `roster_save`,
-- `roster_load_for_user`, `roster_save_for_user` with the two functions below them.
pub mod Documents
pub mod RoundTrip
mod Tests
use jabber.Base.{
  ℕ, ◌-◌, Bool, true, false, Option, none, some, List, [], ◌∷◌, ◌++◌, Text, codes, str_eq,
  snprintf_s, length, ◌==◌, if◌then◌else◌,
}
use jabber.Xml.{Node, Nodes, element, other, nil, cons, node_name, children}
use jabber.World.{
  RosterItem, Roster, Env, M, ◌>>=◌, ◌>>◌, pure, gets, load, modify, change, update_text,
}
use jabber.Roster.{max_roster_items, or_keep}

unfoldable pub has_value : Option Text → Text → Bool
has_value none v = false
has_value (some t) v = str_eq t v

module _ (e : Env) where
  -- snprintf(path, size, "%s/%s/<file>", g_config.datadir, username)
  unfoldable pub user_path : ℕ → Text → Text → Text
  unfolding snprintf_s
  user_path size user file =
      snprintf_s size (e.datadir ++ (codes "/" ++ (user ++ (codes "/" ++ file))))

  unfoldable pub item_of_node : Node → RosterItem
  unfolding or_keep has_value
  item_of_node n = record {
    jid = or_keep 512 (e.xml.get_prop n (codes "jid")) [];
    name = or_keep 256 (e.xml.get_prop n (codes "name")) [];
    subscription = or_keep 16 (e.xml.get_prop n (codes "subscription")) (codes "none");
    ask_subscribe = has_value (e.xml.get_prop n (codes "ask")) (codes "subscribe");
  }

  -- The loop over the children of <roster/>; `room` items still fit.
  unfoldable pub items_of_nodes : ℕ → Nodes → List RosterItem
  items_of_nodes room nil = []
  items_of_nodes room (cons (other t) rest) = items_of_nodes room rest
  items_of_nodes room (cons (element name ns attrs kids) rest) = elim (str_eq name (codes "item")) [
    | false ↦ items_of_nodes room rest
    | true ↦
        if room == 0
        then []
        else item_of_node (element name ns attrs kids) ∷ items_of_nodes (room - 1) rest
  ]

  unfoldable pub roster_of_root : Option Node → Roster
  unfolding node_name children
  roster_of_root none = record { items = []; loaded = true }
  roster_of_root (some root) =
      if str_eq (node_name root) (codes "roster")
      then record { items = items_of_nodes max_roster_items (children root); loaded = true }
      else record { items = []; loaded = true }

  unfoldable pub roster_of_file : Option (List ℕ) → Roster
  unfolding roster_of_root
  roster_of_file none = roster_of_root none
  roster_of_file (some content) = roster_of_root (e.xml.read_root content)

  -- <item/> as roster.xml, roster results and roster pushes have it.
  unfoldable pub item_props : Node → RosterItem → Node
  item_props n i =
      let x = e.xml in
      let with_jid = x.new_prop n (codes "jid") i.jid in
      let with_name =
        if length i.name == 0 then with_jid else x.new_prop with_jid (codes "name") i.name in
      let with_sub = x.new_prop with_name (codes "subscription") i.subscription in
      if i.ask_subscribe then x.new_prop with_sub (codes "ask") (codes "subscribe") else with_sub

  unfoldable pub roster_document : Node → List RosterItem → Node
  unfolding item_props
  roster_document root [] = root
  roster_document root (i ∷ is) =
      roster_document (e.xml.new_child root (item_props (e.xml.new_node (codes "item")) i)) is

  unfoldable pub roster_load_from_path : Text → M Roster
  roster_load_from_path path = gets (λ w. roster_of_file (w.files path))

  -- `true` is 0, `false` is -1.
  unfoldable pub roster_save_to_path : Text → Roster → M Bool
  roster_save_to_path path r =
      if e.writable path
      then change (λ w. record w {
        files =
            update_text w.files path
              (some (e.xml.save_root (roster_document (e.xml.new_node (codes "roster")) r.items)));
      })
        >> pure true
      else pure false

  unfoldable pub roster_load_for_user : Text → M Roster
  roster_load_for_user user = roster_load_from_path (user_path 1280 user (codes "roster.xml"))

  unfoldable pub roster_save_for_user : Text → Roster → M Bool
  roster_save_for_user user r = roster_save_to_path (user_path 1280 user (codes "roster.xml")) r

  unfoldable pub roster_load : ℕ → M (Unit {0})
  roster_load p = do
    s ← load p
    r ← roster_load_for_user s.jid_local
    modify p (λ t. record t { roster = r })

  unfoldable pub roster_save : ℕ → M Bool
  roster_save p = do s ← load p; roster_save_for_user s.jid_local s.roster
