-- ===== src/Lib.antt =====
-- MomentFerry, a self-hosted service that moves photos and videos from the phones and cameras of an
-- event into one folder. This library models its web console, the JavaScript under
-- src/MomentFerry.Web/wwwroot, and of the C# service behind it what the console must agree with.
--
-- The console is one page: app.js keeps the lists it loaded (shares, groups, events, files,
-- operations), renders them, and sends requests; settings.js edits the runtime settings and holds the
-- dialog that leaves Dry Run; i18n.js chooses the language and translates; login.js signs in.
--
-- Files:
--   Common           the library names shared by all files, and the parts of JavaScript's strings and
--                    numbers that the console calls (Common/Tests, Lists, Sort, Texts, Values, Decimal)
--   Model            the data of the API, src/MomentFerry.Core/Domain; samples in Model/Samples
--   Html             escapeHtml (app.js); Html/Escaping
--   I18n             i18n.js: pickLanguage, t, normalize; I18n/Language, I18n/Placeholders,
--                    I18n/Calm;
--                    I18n/Document is initI18n on a document
--   Format           formatDate, formatBytes, formatNumber, taskDuration, the countdown's clock
--                    (app.js); Format/Bytes, Format/Clock
--   Picker           the date picker (app.js); Picker/Grid, Picker/Value; Picker/Dialog is what its
--                    clicks do
--   Paths            shareForPath, baseName, safeSegment, destinationFolder (app.js); Paths/Owner,
--                    Paths/Names, Paths/Template, Paths/Folder
--   Tasks            runBackgroundTask, updateTaskClock (app.js) as a step relation over the map of
--                    tasks, the actions in flight and the finally handlers (Tasks/Steps);
--                    Tasks/Invariant, Tasks/InFlight
--   Analysis         eventChecks, eventMatches, renderEventAnalysis (app.js); Analysis/Routing is the
--                    decision of the service (RoutingPreviewService.cs, SqliteMediaEventRepository.cs,
--                    MediaRoutingWorker.cs), Analysis/Routing/Agreement compares the two
--   Settings         settings.js: the form and the body that is sent, with the PUT handler of
--                    SettingsEndpoints.cs; Settings/Form. Settings/Live is the page as a machine over
--                    events, requests in flight and the server; Settings/Live/Quiet and Safety.
--                    Settings/Status is what the page says of the automation and the storage
--   Web              request (app.js), settingsRequest (settings.js), authRequest and returnUrl
--                    (login.js); Web/Query, Web/Return; Web/Login is the page that signs in,
--                    as events in any order, and Web/Phase what it can be at
--   Forms            the forms of app.js: Forms/Shares, Groups, Events and Presets go from the entry
--                    that is edited to the request that saves it; Forms/Lines is linesToList
--   Scan             triggerScanNow, monitorAutomationCycle, renderNextScanCountdown (app.js) as a
--                    machine; Scan/Wait is the loop, Scan/Progress the page around it, Scan/Countdown
--                    what the countdown says
--   Markup           the renderers of app.js: Markup/Shares, Events, Operations, Overview, Progress,
--                    Storage, Sources, Preview, TaskList, Setup, Naming, Selects, Dialogs, Folders and
--                    Calendar hold their template literals as pieces;
--                    Markup/Pieces is how a browser reads pieces, Markup/Templates the check of one
--                    template, Markup/Cards, Choices, Boxes and Lists the check of each renderer, and
--                    Markup/Safety puts the renderers together; Markup/Words, StorageWords and
--                    CardWords are what some of them put in as it is, for Markup/Reports;
--                    Markup/Meter is the meter of the storage card
--   Updates          renderImageUpdate, waitForUpdatedMomentFerry and the installation (settings.js);
--                    Updates/Wait
--   Navigation       setView, the theme, the display preferences and the start of the week (app.js);
--                    Navigation/Shown
--   Actions          what the buttons do (app.js, settings.js), as programs that ask the user, call the
--                    server and tell what came of it: Actions/Shares, Events, Files, Upkeep,
--                    Saving and Refreshing are the handlers, Actions/Handlers their list, which leaves
--                    out the settings form, the switch of the mode, the installation of an update and
--                    the folder browser (they are in Settings, Updates and Browser);
--                    Actions/Consent and Actions/Honest are the rules for programs that
--                    Actions/Confirmed and Actions/Reported apply to each
--   Page             the data of the console and the lists that show it (app.js): load, the functions
--                    that reload, and renderAll; Page/Current
--   Preview          waitForRoutingPreview (app.js); Preview/Wait
--   Browser          the folder browser of the share form (app.js) as a machine: its tree, and in
--                    Browser/Handlers what is clicked and answered; Browser/Rules is what the tree is
--                    to be like, Browser/Rows what each change keeps of it, and Browser/Shown that it
--                    stays so
--   Renaming         the preview of names (app.js) as a machine with its timer and the requests under
--                    way; Renaming/Settled
-- A module named Tests holds runs at concrete inputs.
--
-- How the code is carried over: a text is a list of character codes; a number is a natural number, and
-- a null or undefined value is `none`. An instant of the API is ticks of 100 ns since the
-- epoch, an instant of the console's own clock (Scan, Tasks) milliseconds. What the browser's
-- locale data decides is a field of Locale. State that handlers change is passed explicitly; a
-- promise's continuation is an event of its own, so every order of answers is an order of events.
-- Loops are structural recursion, and the one search with fuel (the digits of a number, Common/Decimal)
-- is given one more than the number, with the theorem that reading the digits gives the number.
--
-- Not modelled: the document itself beyond the texts that are written into it (styles, focus,
-- placing), the dictionaries (data of 290 KB), the writing of preferences, the C# services other than
-- the parts named above.
mod Common
pub mod Model
pub mod Html
pub mod I18n
pub mod Format
pub mod Analysis
pub mod Tasks
pub mod Picker
pub mod Paths
pub mod Settings
pub mod Web
pub mod Forms
pub mod Scan
pub mod Markup
pub mod Updates
pub mod Navigation
pub mod Actions
pub mod Page
pub mod Preview
pub mod Browser
pub mod Renaming
