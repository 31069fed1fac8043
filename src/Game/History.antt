-- ===== src/Game/History.antt =====
-- Every history of the game: any sequence of steps that follows an initialization.
use toggld_program.Base.{ℕ, ◌+◌, ◌≤◌, ◌<◌, ◌≡◌, false, some, none, u64_size, arith}
use toggld_program.Base.Int.{ℤ}
use toggld_program.Constants.{Pubkey, pending_refund_space}
use toggld_program.State.{GlobalState, PendingRefund, WinRecord}
use toggld_program.Outcome.{ok}
use toggld_program.Runtime.{Runtime, vault, refund, win_record}
use toggld_program.Programs.{Programs}
use toggld_program.World.{World}
use toggld_program.Initialize.{InitializeAccounts, initialize}
use toggld_program.Game.Invariant.{WorldInv}
use toggld_program.Game.Payouts.{initialize-WorldInv}
use toggld_program.WinNft.Core.{Core}
use toggld_program.Game.Steps.{Step, Progress, Advanced}
use toggld_program.Game.Advances.{Step-Advanced}

-- What a sequence of steps reaches.
pub data Reach (rt : Runtime) (pr : Programs) (core : Core) (w : World) : World → Type 0 where
  here : Reach rt pr core w w
  next : {u v : World} → Reach rt pr core w u → Step rt pr core u v → Reach rt pr core w v

Progress-trans : (a b c : GlobalState) → Progress a b → Progress b c → Progress a c
Progress-trans a b c p q = ground (arith, p, q)

-- From a state that satisfies the invariant, every sequence of steps keeps the invariant; the price,
-- the holder count and the number of rounds never fall, and the admin, the treasury and the genesis
-- price are fixed.
pub Reach-Advanced :
    (rt : Runtime) (pr : Programs) (core : Core) {w w' : World} (gs : GlobalState)
    → Reach rt pr core w w'
    → WorldInv rt w gs
    → Advanced rt gs w'
Reach-Advanced rt pr core gs here v = (gs, v, ground arith)
Reach-Advanced rt pr core gs (next before step) v =
    let (gs₁, v₁, p₁) = Reach-Advanced rt pr core gs before v in
    let (gs₂, v₂, p₂) = Step-Advanced rt pr core gs₁ step v₁ in
    (gs₂, v₂, Progress-trans gs gs₁ gs₂ p₁ p₂)

-- After any steps that follow an initialization, which is by a wallet, at a `u64` price and in a
-- world without refunds or wins: the vault holds at least its rent, the top bid and the treasury's
-- balance; each refund account belongs to the bidder of its address and holds at least its rent and
-- its amount, which is positive; the price is at least the genesis price; and the admin and the
-- treasury are those of the initialization.
pub history_solvent :
    (rt : Runtime) (pr : Programs) (core : Core) (now : ℤ) (ctx : InitializeAccounts)
    (treasury admin : Pubkey) (price : ℕ) (w w₀ w' : World)
    → rt.is_derived ctx.payer ≡ false
    → price < u64_size
    → ((k : Pubkey) → w.refunds k ≡ none)
    → ((k : Pubkey) → w.win_records k ≡ none)
    → initialize rt now ctx treasury admin price w ≡ ok w₀
    → Reach rt pr core w₀ w'
    → (gs : GlobalState) × (w'.global_state ≡ some gs)
      × (rt.minimum_balance 0 + gs.top_bid_amount + gs.treasury_balance
          ≤ w'.lamports (rt.address vault))
      × ((b : Pubkey) (slot : PendingRefund)
          → w'.refunds (rt.address (refund b)) ≡ some slot
          → (slot.bidder ≡ b)
            × (0 < slot.amount)
            × (rt.minimum_balance pending_refund_space + slot.amount
                ≤ w'.lamports (rt.address (refund b))))
      × (price ≤ gs.current_price)
      × (gs.admin ≡ admin)
      × (gs.treasury ≡ treasury)
history_solvent rt pr core now ctx treasury admin price w w₀ w' wallet fits no_refunds no_wins done
      run =
    let v =
      initialize-WorldInv rt now ctx treasury admin price w w₀ wallet fits no_refunds no_wins
        done in
    let (gs, v', p) = Reach-Advanced rt pr core _ run v in
    (
      gs,
      v'.loaded,
      omega (arith, v'.solvent, v'.game.escrow_eq),
      λ b slot there. let s = v'.refunds_backed b slot there in (s.owned, s.nonzero, s.backed),
      p.price_le,
      p.same_admin,
      p.same_treasury,
    )

-- After any steps that follow an initialization, which is by a wallet, at a `u64` price and in a
-- world without refunds or wins, the wins are recorded without a gap: the record of each ordinal
-- below the holder count exists and bears the number after it, no later one exists, and the latest
-- is the holder's.
pub history_recorded :
    (rt : Runtime) (pr : Programs) (core : Core) (now : ℤ) (ctx : InitializeAccounts)
    (treasury admin : Pubkey) (price : ℕ) (w w₀ w' : World)
    → rt.is_derived ctx.payer ≡ false
    → price < u64_size
    → ((k : Pubkey) → w.refunds k ≡ none)
    → ((k : Pubkey) → w.win_records k ≡ none)
    → initialize rt now ctx treasury admin price w ≡ ok w₀
    → Reach rt pr core w₀ w'
    → (gs : GlobalState) × (w'.global_state ≡ some gs)
      × (0 < gs.holder_count)
      × ((n : ℕ) → gs.holder_count ≤ n → w'.win_records (rt.address (win_record n)) ≡ none)
      × ((n : ℕ)
          → n < gs.holder_count
          → (r : WinRecord) × (w'.win_records (rt.address (win_record n)) ≡ some r)
            × (r.holder_count ≡ n + 1)
            × (n + 1 ≡ gs.holder_count → r.winner ≡ gs.holder))
history_recorded rt pr core now ctx treasury admin price w w₀ w' wallet fits no_refunds no_wins done
      run =
    let v =
      initialize-WorldInv rt now ctx treasury admin price w w₀ wallet fits no_refunds no_wins
        done in
    let (gs, v', p) = Reach-Advanced rt pr core _ run v in
    (gs, v'.loaded, v'.game.counted, v'.unrecorded, v'.recorded)
