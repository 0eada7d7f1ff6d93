-- ===== src/Lib.antt =====
-- Verification of the frontend of Wazire, an exam platform for tertiary institutions: React pages in
-- TypeScript (frontend/src) in front of a Python backend (backend).
--
-- The parts, how they interact, and where they stand here:
--
-- TakeExam: frontend/src/pages/TakeExam.tsx, the page on which a student takes an exam. `Answer` has
-- the shapes in which an answer is saved (`format_immediate` for `saveAnswerImmediate`,
-- `format_queued` for `enqueueSave`), read back (`load_answers` for the loop of `loadExam`) and read
-- by the grader of backend/services/academic/submission.py (`graded_answer`). `Queue` has the state
-- of the page and an operation for each part of `handleAnswer`, `saveAnswerImmediate`, `enqueueSave`,
-- `persistPending`, `processQueue` and `handleSubmitExam` between two `await`s: JavaScript runs such a
-- part without interruption, so orders of replies are orders of operations. `Steps` puts the page
-- beside the server's answers; its `Event`s are what the student, the network and the interval of five
-- seconds can make happen, and `run` plays any list of them. `Timer` is the countdown, in whole
-- milliseconds. `Sheet` has what the student sees of that page with the moves between the questions,
-- `Screen` what it shows during the exam, `Entrance` what it shows before, with `handleStartExam`, and
-- `Loading` has `loadExam`, which feeds these and the countdown.
-- `Effects`, `Invariant`, `Delivery`, `Drain`, `Submit`, `Grading`, `Countdown`, `Deadline`, `Moves`,
-- `Emptied`, `Starting` and `Ready` hold the proofs.
--
-- Display: `formatTime` of the page, `formatDuration` of frontend/src/utils/formatDuration.ts with the
-- decimal that the page builds for it, and in `Offset` the dates that
-- frontend/src/components/DateTimePicker.tsx hands on.
--
-- Http: frontend/src/apis/client.ts and frontend/src/apis/api-utils.ts. `Types` has the browser as a
-- `World` (localStorage, the address, the error tracker's errors, the requests sent) and a call as a
-- function of it with a result or a thrown value; `Client` has the two interceptors and the token
-- helpers of frontend/src/config.ts, `Envelope` the two readers of a reply, `Safe` the wrapper
-- `safeRequest`, `Utils` the guards and the common error handler. `Interceptors` holds proofs.
--
-- Apis: the modules that call the client: frontend/src/apis/exam.ts (`Exam`, `ExamQuestion`),
-- frontend/src/apis/submission.ts (`Submission`), frontend/src/apis/course.ts (`Course`),
-- frontend/src/apis/enrollment.ts and frontend/src/apis/semester.ts (`Enrollment`), and
-- frontend/src/apis/billing.ts, frontend/src/apis/dashboard.ts and frontend/src/apis/answer.ts
-- (`Billing`), with the tests that they share in `Shared`; frontend/src/apis/question.ts,
-- frontend/src/apis/tenant.ts and frontend/src/apis/health.ts are in `Plain`. `Conduct`, the
-- modules named after it and `Status` and `Mine` hold the proofs.
--
-- ErrorTracking: frontend/src/utils/errorTracking.ts, which the interceptors write to. Its `History`
-- relates the store to the list of all errors ever tracked.
--
-- Forms: frontend/src/utils/validation.ts (`Validators`) and frontend/src/hooks/useFormValidation.ts
-- (`Hook`). `Email` and `Password` say what two validators accept, `Submission` when a form is
-- submitted, and `Freshness` that the messages of a form fit its values.
--
-- Session: signing in. `Guards` has `validateEmail` of frontend/src/apis/api-utils.ts, `Auth` the
-- functions of frontend/src/apis/auth.ts, `Context` the user of frontend/src/contexts/AuthContext.tsx
-- beside localStorage, `LoginPage` the handler of frontend/src/pages/Login.tsx and `Routes` the guards
-- and routes of frontend/src/App.tsx. `Call` gathers the functions of the API modules; `AuthConduct`,
-- `Calls`, `Stored`, `Restore`, `Rejected` and `Navigation` hold proofs.
--
-- Questions: frontend/src/pages/ExamQuestions.tsx. `Form` has the form and what
-- `handleCreateQuestion` and `handleUpdateQuestion` send of it, `RoundTrip` the form that
-- `handleEditQuestion` makes of a question, `View` the filters and labels, `Page` the state with
-- its handlers, each cut where it waits for the server, `Uploads` its files with the check of
-- frontend/src/lib/imageUtils.ts. `Life` plays lists of events on the page; `Screen` adds the
-- search, the filter, the pages and the upload, and `Look` is the view, with its two dialogs in
-- `Dialogs`. `Numbers`, `Types`, `Previews`, `Viewers` and `Rights` hold proofs.
--
-- Paging: the page numbers of frontend/src/components/Pagination.tsx (`Window`) and the pages that the
-- question page cuts itself (`Slices`); `Cover` has proofs.
--
-- ListPages: frontend/src/pages/Exams.tsx (`Exams`, and its view in `ExamsLook`), and what a
-- student sees of a page of exams or of courses, frontend/src/pages/Courses.tsx (`Students`);
-- `Enrollments` is the list of students of frontend/src/pages/CourseDetail.tsx. `Stuck` plays
-- events on the dialog for a new exam, `Stale` on that list; `Managed` holds a proof on the view.
--
-- Ui: what a page shows, as a list of texts and controls, and what can be done there (`Element`),
-- with the shared components of frontend/src/components that the pages use (`Parts`). Colours,
-- icons and movement are left out. A page that is modelled with its view has a relation `Reached`
-- or `Follows`: the states that come of what the view offers and of the replies that it waits for.
--
-- Users: frontend/src/pages/UserManagement.tsx, its state and handlers (`Page`) and its view (`Look`).
--
-- CourseList: frontend/src/pages/Courses.tsx, its state and handlers (`Page`) and its view (`Look`).
--
-- CoursePage: frontend/src/pages/CourseDetail.tsx: its state (`Types`), its handlers, each cut where it
-- waits for the server (`Page`), what can happen (`Steps`), and its view (`Look`, `Dialogs` and `View`).
-- `Controls` goes through the view; `Rights` and `Year` hold proofs.
--
-- Tenants: frontend/src/utils/tenantAbbreviations.ts: its table (`Table`, in five parts) and its two
-- functions (`Abbreviate`). `Includes` has lemmas on texts in texts, `Order` the proofs.
--
-- Base: the shared names, lists over the native numbers, texts (lists of UTF-16 code units), numbers,
-- dynamic values, and objects used as dictionaries, in insertion order.
--
-- Parameters stand for what is outside of the source: the server with axios (`Platform.reply`, any
-- answer to a request, given the requests before it), the identifiers of requests, the text of a
-- number and of a value that is not a string, `JSON.parse` and `JSON.stringify`, the message of a
-- localStorage that throws, whether a text is a URL, and the configuration.
--
-- Bounds and fuel: `print` of Base/Decimal writes a number with as much fuel as the number is large,
-- and `read-print` shows that this is enough. The countdown takes times in milliseconds as natural
-- numbers, and the duration of an exam as whole hours and minutes. The tables of statuses in
-- Apis/Status run over 400 to 599. Lower case is that of ASCII. Everything else is structural
-- recursion.
--
-- Not modelled: rendering and styles; the other pages; the loader of the configuration; the upload
-- of a file by the client, and reading a file; console output and time stamps of the error tracker;
-- a localStorage that throws in the exam page; timers that clear a message; the backend, but for what
-- the grader reads of an answer. A form has an `onSubmit`, and the rules of a form have distinct
-- fields.
pub mod Apis
pub mod Base
pub mod CourseList
pub mod CoursePage
pub mod Display
pub mod ErrorTracking
pub mod Forms
pub mod Http
pub mod ListPages
pub mod Paging
pub mod Questions
pub mod Session
pub mod TakeExam
pub mod Tenants
pub mod Ui
pub mod Users
