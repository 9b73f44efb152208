-- ===== src/Lib.antt =====
-- The action workflow of ts-agentguard: a client sends an action for a preview, a person approves or
-- denies it where the policy asks for a review, a token is issued for it, and the token lets it be
-- executed once by one of three executors. The handlers keep an audit log.
--
-- Beside it, the server scores answers to a questionnaire and writes the result as HTML pages.
--
-- A second program, input-control-demo, masks the inputs to a model and decides on them by what was
-- found in them.
--
-- Paths below are in ts-agentguard/src, but for InputControl.
--
-- The parts and the code that they follow:
--   Models                  models.ts: the enums and the records of the schemas.
--   Kgld, Gold              kgld.ts, gold.ts: what a loan and a gold purchase state, and their audit
--                           fields.
--   Policy                  policy.ts, evaluatePolicy: its branches in order, in four functions.
--   Risk                    risk.ts, scoreRisk: the points and factors in the order of the code.
--   Fingerprint             token-service.ts, stableStringify and actionFingerprint.
--   Token                   token-service.ts, TokenService: the store as a keyed list, issue,
--                           validateForExecution (its refusals in order, then the mark), clear.
--   Audit                   audit.ts and approval.ts.
--   Executors.Mock          executors/mock-browser.ts and executors/mock-github.ts.
--   Executors.Settlement    executors/settlement-orchestrator.ts: execute with each of its fallbacks,
--                           and in Reading the readers of the orchestrator's answers.
--   Server.State            server.ts: AgentGuardState, createState, the requests and the replies.
--   Server.Preview          server.ts, POST /actions/preview.
--   Server.Execute          server.ts, POST /actions/execute, cut in two at its await: begin_execute
--                           up to the call of the executor, complete_execute from its result on.
--   Server                  server.ts, the other routes, and serve, which chooses the handler.
--   Server.Interleaving     the handlers in any order: a step serves a request or completes one of the
--                           executions that wait for their executor.
--   Server.Progress         serve on the requests of one client, from the preview to the result.
--   Server.Environment      server.ts, loadLocalEnvFile.
--   Server.PageRoutes       server.ts, the routes that answer with a page, and validateBody. The body
--                           of /summary is any JSON value.
--   Token.Capabilities      what the token service promises: a token as a capability that is used once.
--   Common, Js              texts, keyed lists, and what JavaScript gives: values and numbers.
--   Assessment              assessment/: Types and Questions (types.ts, questions.ts), Scores, Levels,
--                           Priorities, Explanations and Summary (scoring.ts, evaluateAssessment),
--                           ScoringTables, Standards and StandardsTable (standards-mapping.ts),
--                           Industry, Scenario, Recommendations and Roadmap (industry-profiles.ts,
--                           scenario-engine.ts, recommendation-engine.ts, recommendations.ts),
--                           ExecutiveSummary (executive-summary.ts).
--   Pages                   the HTML of assessment/: Html (escapeHtml), Dashboard (dashboard.ts),
--                           Report (executive-report.ts, and in Received on any JSON value instead of
--                           a result), PolicyAssessment (policy-assessment.ts),
--                           Questionnaire and Landing (pages/), Overview
--                           (assessment-html.ts, which no route sends), ResultJson (the result as JSON),
--                           ResultText (results.ts).
--                           The long constant texts of a page are lists of its lines.
--   GovernOps               governops/ and demo/governops-preview-panel.ts.
--   InputControl            input-control-demo/src/models.ts, policy-engine.ts (the loops over the
--                           rules, the findings and the composite risks as folds) and
--                           detectors/composite-risk-engine.ts and destination-risk-engine.ts (their
--                           tests as lists in order). Masking: masking-engine.ts and maskValue, on
--                           the code units of a text. Inspection: inspection-engine.ts, inspectText,
--                           with audit-log.ts and evidence-builder.ts. CardNumbers:
--                           sensitive-data-detector.ts, validCard. Files: file-analyzer.ts,
--                           analyzeFile, and in Service POST /files/inspect of server.ts.
-- The other modules hold the proofs about the part in whose folder they stand, Tests the concrete runs.
--
-- What stands for the language and for code outside the repository: the record Js has the type of
-- numbers and the operations on it that the code uses, without laws (a theorem that needs one takes
-- it as a hypothesis, such as that a NaN equals no number), and the text functions and sha256.
-- JavaScript values are a data type with objects as lists of properties in insertion order. The keys
-- of an object that read as array indices, which JavaScript moves to the front, are not treated apart.
-- The clock is a function from the number of the reading within a handler to milliseconds; a UUID is
-- an argument of the request that draws one. A body that a Zod schema refuses is none. The settlement
-- orchestrator is a pair of functions from a request to a response, an error status or an exception.
-- In Server.Interleaving the result of an executor is any result. The rules of the policy file of
-- input-control-demo are an argument, as are the findings of its detectors, which are regular
-- expressions. What reads the text of a document of a format is an argument
-- of Files. The files, the date and encodeURIComponent are arguments of the pages.
--
-- Recursion is structural throughout, on values, lists and texts; no fuel is used. Risk scores are
-- natural numbers, as the code adds only natural numbers to 0. The scores of the assessment are
-- quotients of small natural numbers, rounded as Math.round rounds the exact quotient.
--
-- Not modelled: the start of the server, the functions of governops/ that only throw a TODO error, and
-- of input-control-demo the detectors (regular expressions), the reading of zip, PDF and multipart
-- data, and the routes that only hand on to a part that is modelled.
pub mod Common
pub mod Js
pub mod Models
pub mod Kgld
pub mod Gold
pub mod Policy
pub mod Risk
pub mod Fingerprint
pub mod Token
pub mod Audit
pub mod Executors
pub mod GovernOps
pub mod InputControl
pub mod Assessment
pub mod Pages
pub mod Server
pub mod Tests
