-- ===== src/Ssh/Manager/Requests/Output.antt =====
-- What reading the server's output does to the manager: it fills notification channels only.
use k8s_ssh_gateway_controll.Prelude.{◌≡◌, refl, ap, ◌∙◌, Option, none, some, List, [], ◌∷◌, arith}
use k8s_ssh_gateway_controll.Prelude.Eq.{int_eq, nat_eq}
use k8s_ssh_gateway_controll.Go.Text.{Text, text_eq}
use k8s_ssh_gateway_controll.Go.Map.{
  Map, has, get-map_values, map_laws, get-empty, get-set, get-delete,
}
use k8s_ssh_gateway_controll.Ssh.Flags.{kind_eq}
use k8s_ssh_gateway_controll.Ssh.Manager.State.{Server, Manager}
use k8s_ssh_gateway_controll.Ssh.Manager.Requests.{
  offer, extracted, process_server_data, listen, notify_if_any,
}
use mathlib.Core.List.{foldl}
use k8s_ssh_gateway_controll.Go.Map

-- The state but for the channels.
abbrev pub OnlyChannels : Manager → Manager → Type 0
OnlyChannels m m' = m' ≡ record m { addr_notifications = m'.addr_notifications }

OnlyChannels-trans : (m n p : Manager) → OnlyChannels m n → OnlyChannels n p → OnlyChannels m p
OnlyChannels-trans m n p a b =
    b ∙ ap (λ (x : Manager). record x { addr_notifications = p.addr_notifications }) a

notify_if_any-frame : (m : Manager) (o : Option (List Text)) → OnlyChannels m (notify_if_any m o)
unfolding notify_if_any
notify_if_any-frame m none = refl
notify_if_any-frame m (some []) = refl
notify_if_any-frame m (some (uri ∷ uris)) = refl

pub process-frame : (m : Manager) (chunk : Text) → OnlyChannels m (process_server_data m chunk)
unfolding process_server_data
process-frame m chunk = notify_if_any-frame m (extracted m.remote_addr_func chunk)

-- Reading output changes the channels only.
pub listen-frame :
    (srv : Server) (m : Manager)
    → listen srv m ≡ record m { addr_notifications = (listen srv m).addr_notifications }
unfolding listen
listen-frame srv m = loop m (srv.output m.history)
  where
    loop : (n : Manager) (chunks : List Text) → OnlyChannels n (foldl process_server_data n chunks)
    loop n [] = refl
    loop n (chunk ∷ chunks) =
        OnlyChannels-trans n _ _ (process-frame n chunk) (loop (process_server_data n chunk) chunks)

notify_if_any-idle :
    (m : Manager) (o : Option (List Text)) (key : Text)
    → Map.get m.addr_notifications key ≡ none
    → Map.get (notify_if_any m o).addr_notifications key ≡ none
unfolding notify_if_any
notify_if_any-idle m none key h = h
notify_if_any-idle m (some []) key h = h
notify_if_any-idle m (some (uri ∷ uris)) key h =
    ground (arith, get-map_values (offer (uri ∷ uris)) m.addr_notifications key)

pub process-idle :
    (m : Manager) (chunk key : Text)
    → Map.get m.addr_notifications key ≡ none
    → Map.get (process_server_data m chunk).addr_notifications key ≡ none
unfolding process_server_data
process-idle m chunk key h = notify_if_any-idle m (extracted m.remote_addr_func chunk) key h

-- A key without a channel gets none.
pub listen-idle :
    (srv : Server) (m : Manager) (key : Text)
    → Map.get m.addr_notifications key ≡ none
    → Map.get (listen srv m).addr_notifications key ≡ none
unfolding listen
listen-idle srv m key h = loop m (srv.output m.history) h
  where
    loop :
        (n : Manager) (chunks : List Text)
        → Map.get n.addr_notifications key ≡ none
        → Map.get (foldl process_server_data n chunks).addr_notifications key ≡ none
    loop n [] e = e
    loop n (chunk ∷ chunks) e =
        loop (process_server_data n chunk) chunks (process-idle n chunk key e)
