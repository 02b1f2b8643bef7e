-- ===== src/Lib.antt =====
-- Verification library of the backend of a quiz platform (Go): its live games, its payments and its
-- licences.
--
-- The program. A buyer opens a checkout for a product and gets an order with a code; the money comes
-- as a bank transfer that SePay reports by webhook, or by its list when a webhook was lost, or through
-- SePay's payment gateway as a notification. Money that was found for an order settles it or sends
-- it to review. A paid order mints an activation code; redeeming the code gives its plan to a user for
-- a term; a revoked code takes the plan back from those who hold it by that code. Limits that
-- handlers enforce are read from the plan, if the licence switch is on.
--
-- A live game is a room with a PIN. Players join it in the lobby; the host starts it and, in a
-- classic game, opens one question after another for all. In a solo game each player goes
-- through the questions alone, one at a time, each with its own clock. An answer is first marked in
-- Redis, so that a second one is turned away, and then judged, logged and scored in a transaction. The
-- game ends once: the first caller claims the room, archives the ranking and the answers, and cleans
-- its rows up.
--
-- An owner whose plan allows it shares a quiz with editors, by their mail addresses.
--
-- Files.
--   Base            texts, lists, tests on native numbers, results and the transaction monad;
--                   Floats and Rounding are float64, Rows what holds of all rows of a table
--   Model           internal/model: the rows; Store is the database, Errors the sentinel errors,
--                   Rollback what a transaction promises; Game and Sharing have the tables
--                   of the live game and of quizzes that are shared
--   Game/Scoring    internal/handler/quiz.go: evaluateAnswer and the points of SubmitAnswer
--   Game/Tables     the statements the game handlers share; question_cache.go
--   Game/Lobby      internal/handler/quiz.go and player_errors.go: JoinRoom, LeaveRoom, StartGame,
--                   UpdateRoomPrivacy, reconnectPlayer
--   Game/Rounds     internal/handler/quiz.go: NextQuestion, EndQuestion
--   Game/Ask        internal/handler/quiz.go: GetPlayerQuestion, ensureSoloQuestionAssigned
--   Game/Answer, Game/Submit  internal/handler/quiz.go (SubmitAnswer), answer_claim.go and
--                   submit_classic.go: the transaction and the handler around it
--   Game/Finish     internal/handler/quiz.go: finalizeRoom, EndGame, archiveGameLogs
--   Game/Steps      the handlers as one transition system; Game/Moves cuts them into statements
--   Game/Scores, Game/Status, Game/Podium  what all steps keep: the scores, the life of a room, and
--                   the result of a finished game
--   Sharing         internal/handler/quiz_sharing.go: rightsOn, loadQuizRights, AddQuizCollaborator,
--                   RemoveQuizCollaborator, LeaveSharedQuiz, claimPendingInvites
--   License/Code    internal/pkg/license/code.go: NormalizeCode, GenerateCodesTx, RevokeCode
--   License/Term    internal/pkg/license/license.go: computeTerm, classifyAction, plan ranks
--   License/Plans   internal/pkg/license/license.go: setPlanTx, DowngradeToFree, GetEntitlements
--   License/Redeem  internal/pkg/license/code.go: RedeemCode; redeem_tx is its transaction
--   License/ClawBack  internal/pkg/license/revoke.go
--   Payment/Code    internal/pkg/payment/code.go: order codes in transfer contents
--   Payment/Clip    clip of internal/pkg/payment/sepay.go
--   Payment/Settle  MarkPaidTx of internal/pkg/payment/order.go; settle, review and setTxn of sepay.go
--   Payment/Sepay   internal/pkg/payment/sepay.go: ApplySePay, AttachTransaction, DismissTransaction
--   Payment/Orders  internal/pkg/payment/order.go: CreateOrder, AdminConfirm, AdminCancel, ExpireStale
--   Payment/Amount  parseVND, flexString and flexInt of internal/pkg/payment
--   Payment/Gateway internal/pkg/payment/gateway.go
--   Payment/History the ledger through all operations that write it
--   Payment/Webhook, Payment/Reconcile  internal/pkg/payment/sepay.go and reconcile.go;
--                   Payment/Reconcile/Gateway is gateway_reconcile.go
--   Platform/Settings   internal/pkg/settings/settings.go and internal/pkg/license/enforcement.go
--   Platform/RateLimit  internal/middleware/ratelimit.go
--   Platform/Alerts     internal/pkg/notify/control.go
--   Tests           a small shop, a small game and a small quiz, on which the theorems are applied
--
-- Conventions. A text is its list of code points, of valid UTF-8; ToUpper and ToLower are exact on the
-- ASCII that codes and tags are made of. An int is a 64-bit pattern below 2^64, and sums wrap there. An
-- instant is a number of nanoseconds, a day 24 hours (the servers' zones have no daylight saving time);
-- a store's clock readings are arguments. A handler is one step on the Store, as its row locks make
-- it; `Faults` says which of its statements the database refuses, and a transaction that fails, in its
-- body or at the commit, leaves the tables as they were. Rows of orders, transfers, codes and
-- events stand newest first. config.AppConfig is an optional Config. Columns that no modelled code
-- reads are left out. The live game has tables of its own, the GameStore. A float64 is a number of
-- units of 2 ^ -1074, rounded to 53 bits by every operation. finalizeRoom is cut where other requests
-- come between: the claim, the closing, and the clean-up; the UPDATE of NextQuestion and the two halves
-- of RefreshEnforcement are steps of their own as well. The caches of questions and rooms are
-- taken as fresh.
--
-- Arguments stand for what is not in the repository: the random numbers that rand.Int returns (a
-- list, whose end is a failing reader), the signature, the reading of dates, the JSON text of a row and
-- SePay's answers to the list call and the order API; for the live game the folding of case and the
-- distance between pins, sort.Slice, the player that a token names and what the
-- JSON of a theme says of the game's mode; for sharing, the
-- reading of mail addresses and what is known of their domains.
--
-- Bounds. The minting loop runs on fuel, one more than the numbers that the reader has left; each
-- round reads twelve, so the fuel outlasts the reader. The bits of a number are
-- counted with the number as fuel, which halving never uses up. All other loops are structural.
--
-- Not modelled: HTTP, SQL, Redis and mail themselves, the alerts, receipts and realtime events sent
-- after a commit, the listings, and so far the making of rooms, the polls and standings and the
-- workers.
pub mod Base
pub mod Model
pub mod License
pub mod Payment
pub mod Game
pub mod Sharing
pub mod Platform
mod Tests
