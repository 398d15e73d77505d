-- ===== src/Cli/User/Laws.antt =====
-- What the user commands do to the users of a configuration.
use mesh_checker.Base.{◌≡◌, refl, false, [], ◌∷◌, ◌++◌, text_eq, ok}
use mesh_checker.Config.{Config, User}
use mesh_checker.Cli.Named.{exists, cut_out-append}
use mesh_checker.Cli.User.{with_users, user_name, added_line, removed_line, add_user, remove_user}

-- A user of a name that the configuration does not have can be added; removing that name from the
-- result gives the configuration back.
pub add_user-remove_user :
    (u : User) (c : Config)
    → exists user_name u.name c.ui.users ≡ false
    → (add_user u c ≡ ok (with_users c (c.ui.users ++ (u ∷ [])), added_line u.name))
      × (remove_user u.name (with_users c (c.ui.users ++ (u ∷ []))) ≡ ok (c, removed_line u.name))
unfolding add_user remove_user
add_user-remove_user u c h =
    (rw (add_user, h) refl, rw (remove_user, cut_out-append user_name u c.ui.users h) refl)
