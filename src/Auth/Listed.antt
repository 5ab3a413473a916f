-- ===== src/Auth/Listed.antt =====
-- The list of players (Mononoke/src/Lists/PlayerList.h) and the players that its names lead to.
use rzemulator.Base.{ℕ, ◌<◌, ◌≡◌, true, none, some, if◌then◌else◌, arith}
use rzemulator.Base.Assoc.{string_eq, lookup-insert, lookup-erase}
use rzemulator.Auth.{
  Player, Packet, Server, write, send, delete_player, add_player, remove_player, get_player,
}
use rzemulator.Auth.Client.{alloc_player, kick_if_in_game}
use text.Mathlib.Text.{◌==◌ as str_eq}
use text.Mathlib.TextEquality.{eq_iff}
use Prim.Native.String.{String}

pub record IsListed (s : Server) : Type 0 where
  pub entry :
      (name : String) (p : ℕ)
      → get_player name s ≡ some p
      → (s.alive p ≡ true) × ((s.player_at p).login_name ≡ name) × (p < s.next_player)

pub get_player-remove :
    (name other : String) (s : Server)
    → get_player other (remove_player name s)
      ≡ (if str_eq name other then none else get_player other s)
unfolding get_player remove_player
get_player-remove name other s = lookup-erase name other s.players

pub get_player-add :
    (p : ℕ) (other : String) (s : Server)
    → get_player other (add_player p s)
      ≡ (if str_eq (s.player_at p).login_name other then some p else get_player other s)
unfolding get_player add_player
get_player-add p other s = lookup-insert (s.player_at p).login_name other p s.players

-- Deleting a listed player with its entry keeps the list.
pub drop-IsListed :
    (s : Server) (name : String) (p : ℕ)
    → IsListed s
    → get_player name s ≡ some p
    → IsListed (delete_player p (remove_player name s))
unfolding delete_player remove_player get_player
drop-IsListed s name p w e = record {
  entry = λ other q eq. ground (
    arith,
    lookup-erase name other s.players,
    eq_iff name other,
    w.entry other q,
    w.entry name p e,
  );
}

-- What a player holds besides its name can change.
pub write-IsListed :
    (s : Server) (p : ℕ) (me : Player)
    → IsListed s
    → me.login_name ≡ (s.player_at p).login_name
    → IsListed (record s { player_at = write s.player_at p me })
unfolding get_player
write-IsListed s p me w same = record { entry = λ name q e. ground (arith, w.entry name q e) }

pub send-IsListed : (m : Packet) (s : Server) → IsListed s → IsListed (send m s)
unfolding send get_player
send-IsListed m s w = record { entry = λ name q e. w.entry name q e }

pub kick-IsListed : (old : Player) (s : Server) → IsListed s → IsListed (kick_if_in_game old s)
unfolding kick_if_in_game get_player send
kick-IsListed old s w = record { entry = λ name q e. ground (arith, w.entry name q) }

-- A new player at the next address is not listed yet.
pub alloc-IsListed : (p : Player) (s : Server) → IsListed s → IsListed (alloc_player p s)
unfolding alloc_player get_player
alloc-IsListed p s w = record { entry = λ name q e. ground (arith, w.entry name q e) }

pub add-IsListed :
    (p : ℕ) (s : Server)
    → IsListed s
    → s.alive p ≡ true
    → p < s.next_player
    → IsListed (add_player p s)
unfolding add_player get_player
add-IsListed p s w live below = record {
  entry = λ name q e. ground (
    arith,
    lookup-insert (s.player_at p).login_name name p s.players,
    eq_iff (s.player_at p).login_name name,
    w.entry name q,
  );
}
