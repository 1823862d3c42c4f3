-- ===== src/Lib.antt =====
-- The TypeScript code of the multi-delegator repository: the client library of the subscriptions
-- program (clients/typescript/src) and the payment collection of the web application
-- (webapp/src/lib). The client builds instructions: `Client.Delegations` and `Client.Plans` are the
-- overlay builders of plugin.ts, `Client.Plugin`, `Client.Live` and `Client.Transfers` the plugin's
-- instructions, which fill in signers, the live plan, the live authority and the accounts of
-- transfer hooks (`Client.Hook` and `Client.HookMetas`, transfer-hook.ts). `Client.Validators` is
-- validators.ts, `Client.Accounts` the directory accounts/, `Client.Queries` the plugin's queries.
-- The web application collects payments: `Collect.Eligibility` selects subscribers,
-- `Collect.Readiness` checks their token accounts, with the cache of failures in `Collect.Cache`,
-- `Collect.Send` sends the transfers in batches that `Packer` (tx-packer.ts) makes,
-- `Collect.Results` and `Collect.History` are collect-all-results.ts and collection-history.ts.
-- `Terms` is the arithmetic of utils.ts. A function or type keeps its name in the program, in
-- lower case with underscores; an overlay builder `getXOverlayInstruction` is `x_overlay`.
--
-- The web application also deploys the program: `Loader` and `Loader.Browser` are the instructions of
-- the upgradeable loader (webapp/api/lib/bpf-loader.ts, webapp/src/lib/bpf-loader-browser.ts),
-- `Loader.Plan` cuts a program into chunks (webapp/api/lib/deploy-builder.ts), `Loader.Inspect` is
-- webapp/api/lib/program-status.ts, and `Deploy` the hook webapp/src/hooks/use-program-deploy.ts: its
-- asynchronous code is an `Action` over the refs, the progress and the log of what it asked and sent.
--
-- `Mutations` are the mutations of webapp/src/hooks/use-subscriptions-mutations.ts, each by the
-- instructions that it builds with the overlays (`Mutations.Delegations`, `Mutations.Plans`) and
-- sends through the wallet (`Mutations.Wallet`, use-wallet-transaction-sign-and-send.tsx), in
-- batches (`Mutations.Batches`) or by way of the collection (`Mutations.Collect`); the cache of
-- webapp/src/lib/token-program.ts is in `Mutations` itself. `Filters` are delegation-filters.ts,
-- delegation-approval-state.ts and plan-subscriber-authority.ts of webapp/src/lib. `Setup` is the
-- wizard of webapp/src/hooks/use-setup-wizard.ts.
--
-- `Base` holds what is shared, `Js` the values of the language: `Value` is what JSON.parse returns,
-- `number` the rounding of a double, `Storage` the local storage. A promise that is rejected and an
-- error that is thrown are `throw` of the message in `Result`. An object compared by identity has a
-- number `ref`.
--
-- What is not in the repository is a parameter: the generated client (`GeneratedClient`: PDA finders
-- and instruction builders), the RPC (`Rpc`, `HookKit`, `AccountKit`, `Kit`), the compilation of a
-- transaction (`wire`), the services of the hooks (`Services`), the endpoints of the API
-- (`SetupApi`) and the network (`send_instructions` and `Network`, any functions of the calls
-- before).
--
-- Fuel: `send_group` has the length of its group, and each half of a group of two or more is smaller;
-- `pack_loop` has the number of items, and each round takes one; `seeds_from` has 33 turns for 32
-- positions, and each turn moves on by two or more; `exponent` has the number itself, which each turn
-- halves. `poll`, `poll_status` and `write_attempts` count the rounds that the source allows.
--
-- Not modelled: the Rust program and its tests, the React components, the routes and the hooks that
-- query, the API server, collectAllPlanPayments of the mutations, and the formatting of dates and
-- amounts. `Promise.all` of the readiness checks is run in the order of the subscribers;
-- `Collect.Readiness.Order` is about other orders.
pub mod Base
pub mod Js
pub mod Terms
pub mod Packer
pub mod Setup
pub mod Collect
pub mod Client
pub mod Tests
pub mod Loader
pub mod Deploy
pub mod Mutations
pub mod Filters
